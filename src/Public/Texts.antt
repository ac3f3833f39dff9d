-- ===== src/Public/Texts.antt =====
-- What a public request for a text subscription is answered with, and what it leaves in the database
-- (`publicSubscription` of internal/app/handlers.go, `RecordAccess` of internal/app/store.go).
use sub_manager.Base.{ℕ, ◌+◌, ◌≤◌, ◌<◌, ◌≡◌, ◌⊎◌, ◌∷◌, ◌++◌, Text, byte_len, utf8_width}
use sub_manager.Store
use sub_manager.Store.{Subscription, StoredFile, Result, StoreError, err}

-- `kept` is the longest beginning of `s` whose UTF-8 encoding has at most `n` bytes: the next character
-- does not fit.
abbrev pub IsCut : ℕ → Text → Text → Type 0
IsCut n s kept =
    (byte_len kept ≤ n)
    × ((s ≡ kept)
        ⊎ ((c : ℕ) × (rest : Text) × (s ≡ kept ++ c ∷ rest) × (n < byte_len kept + utf8_width c)))
