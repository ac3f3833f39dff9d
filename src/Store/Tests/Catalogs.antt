-- ===== src/Store/Tests/Catalogs.antt =====
-- A call that takes the path of another subscription, and the refinement applied to it.
use sub_manager.Base.{true, codes}
use sub_manager.Store.Catalog.{CatalogStep, catalog, set, run_call}
use sub_manager.Store.Catalog.Refines.{run_call-CatalogStep}
use sub_manager.Store.Tests.{start, home, home-IsValid}

catalog_example :
    let call = set 1 (codes "n") (codes "/list") (codes "x") true in
    CatalogStep
      (catalog home)
      (catalog (run_call call start home).1)
      call
      (run_call call start home).0
catalog_example =
    run_call-CatalogStep start home home-IsValid
      (set 1 (codes "n") (codes "/list") (codes "x") true)
