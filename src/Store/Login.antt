-- ===== src/Store/Login.antt =====
-- What the session methods of internal/app/store.go promise to the login and password handlers.
use sub_manager.Base.{
  ℕ, ◌+◌, ◌<◌, ◌≡◌, ◌≢◌, ap, refl, subst, true, false, not, List, [], ◌∷◌, Text, text_eq,
  text_eq_iff, text_eq_refl, find, exists, Bool, ◌&&◌, ◌==◌, arith, if◌then◌else◌, Bool-cases, inl,
  inr,
}
use sub_manager.Base.Search.{find-snoc, find-delete, find-delete_all, find_of_not_exists, find_none}
use sub_manager.Clock.{Time, nanoseconds, db_time, db_time_lt}
use sub_manager.Clock.Order.{db_time_lt_sound}
use sub_manager.Store.Tables.{SessionRow, Db, ok, err, no_rows}
use sub_manager.Store.Sessions.{
  change_password, create_session, delete_session, purge_expired_sessions, session, Session,
  is_live, not_expired, scan_session,
}

module _ (hash : Text → Text) where
  abbrev new_row : Text → Text → ℕ → Time → Time → SessionRow
  new_row token csrf version expires made = record {
    token_hash = hash token;
    csrf_token = csrf;
    version = version;
    expires_at = expires;
    created_at = made;
  }

  -- After a change of the password no token has a session, whatever it was, at any time.
  pub change_password_revokes :
      (password token : Text) (now : Time) (d : Db)
      → session hash token now (change_password password d).1 ≡ err no_rows
  unfolding change_password session
  change_password_revokes password token now d = refl

  -- A session that is created with a version other than the current one, as by a login that read the
  -- settings before the password was changed, gives no token a session that it did not have.
  pub stale_login :
      (token csrf : Text) (version : ℕ) (expires made : Time) (other : Text) (now : Time) (d : Db)
      → version ≢ d.settings.session_version
      → session hash other now (create_session hash token csrf version expires made d).1
        ≡ session hash other now d
  unfolding create_session session
  stale_login token csrf version expires made other now d h = ground (
    arith,
    find-snoc (is_live hash other now d) d.sessions (new_row token csrf version expires made),
    find_of_not_exists (is_live hash other now d) d.sessions,
  )

  -- A session that is created for another hash gives a token no session that it did not have.
  pub session_other :
      (token csrf : Text) (version : ℕ) (expires made : Time) (other : Text) (now : Time) (d : Db)
      → hash other ≢ hash token
      → session hash other now (create_session hash token csrf version expires made d).1
        ≡ session hash other now d
  unfolding create_session session
  session_other token csrf version expires made other now d h = ground (
    arith,
    find-snoc (is_live hash other now d) d.sessions (new_row token csrf version expires made),
    find_of_not_exists (is_live hash other now d) d.sessions,
    text_eq_iff (hash token) (hash other),
  )

  -- A session that is created with the current version is found under its token, as it was stored,
  -- exactly while its expiry is behind the present instant in the order of the stored times, if no
  -- stored session has the hash of that token.
  pub session-create :
      (token csrf : Text) (expires made now : Time) (d : Db)
      → exists (λ s. text_eq s.token_hash (hash token)) d.sessions ≡ false
      → session hash token now
          (create_session hash token csrf d.settings.session_version expires made d).1
        ≡ (if db_time_lt (db_time now) (db_time expires)
            then ok (record {
              csrf_token = csrf;
              version = d.settings.session_version;
              expires_at = expires;
            })
            else err no_rows)
  unfolding create_session session
  session-create token csrf expires made now d h = ground (
    arith,
    find-snoc (is_live hash token now d) d.sessions
        (new_row token csrf d.settings.session_version expires made),
    find_none (is_live hash token now d) (λ s. text_eq s.token_hash (hash token)) d.sessions
        (λ s e. ground arith) h,
    text_eq_refl (hash token),
  )

  -- After `DeleteSession` every token with the hash of the given one has no session, and all other
  -- tokens keep their own.
  pub session-delete :
      (token other : Text) (now : Time) (d : Db)
      → session hash other now (delete_session hash token d).1
        ≡ (if text_eq (hash other) (hash token) then err no_rows else session hash other now d)
  unfolding delete_session session
  session-delete token other now d = elim (Bool-cases (text_eq (hash other) (hash token))) [
    | inl same ↦ rw same (
        ap scan_session (
          find-delete_all (is_live hash other now d) (λ s. text_eq s.token_hash (hash token))
            d.sessions
            (λ s e.
              subst (λ h. text_eq s.token_hash h ≡ true)
                ((text_eq_iff (hash other) (hash token)).0 same) (ground arith))))
    | inr apart ↦ rw apart (
        ap scan_session (
          find-delete (is_live hash other now d) (λ s. text_eq s.token_hash (hash token)) d.sessions
            (λ s e. ground (
              arith,
              text_eq_iff s.token_hash (hash token),
              text_eq_iff s.token_hash (hash other),
              text_eq_iff (hash other) (hash token),
            ))))
  ]

  -- `PurgeExpiredSessions` takes no session from a token that has one at that instant.
  pub session-purge :
      (token : Text) (now : Time) (d : Db)
      → session hash token now (purge_expired_sessions now d).1 ≡ session hash token now d
  unfolding purge_expired_sessions session
  session-purge token now d = ap scan_session (
      find-delete (is_live hash token now d) (λ s. not (not_expired now s)) d.sessions
        (λ s e. ground arith))

  -- The row that a session was read from.
  abbrev pub is_stored : Text → Session → SessionRow → Bool
  is_stored token s row =
      text_eq row.token_hash (hash token)
      && text_eq row.csrf_token s.csrf_token
      && row.version == s.version
      && row.expires_at == s.expires_at

  pub session_stored :
      (token : Text) (now : Time) (d : Db) (s : Session)
      → session hash token now d ≡ ok s
      → exists (is_stored token s) d.sessions ≡ true
  unfolding session
  session_stored token now d s e = stored d.sessions e
    where
      stored :
          (l : List SessionRow)
          → scan_session (find (is_live hash token now d) l) ≡ ok s
          → exists (is_stored token s) l ≡ true
      stored [] e = absurd (ground arith)
      stored (r ∷ l) e = elim (Bool-cases (is_live hash token now d r)) [
        | inl hit ↦ ground (arith, text_eq_refl r.csrf_token)
        | inr miss ↦ ground (arith, stored l (rw miss at e))
      ]

  found_live :
      (token : Text) (now : Time) (d : Db) (l : List SessionRow) (s : Session)
      → scan_session (find (is_live hash token now d) l) ≡ ok s
      → (s.version ≡ d.settings.session_version)
        × (db_time_lt (db_time now) (db_time s.expires_at) ≡ true)
  found_live token now d [] s e = cc
  found_live token now d (r ∷ l) s e = elim (Bool-cases (is_live hash token now d r)) [
    | inl hit ↦ ground arith
    | inr miss ↦ found_live token now d l s (rw miss at e)
  ]

  -- A token is accepted only with the current session version, and less than a second after its
  -- session's expiry.
  pub session_sound :
      (token : Text) (now : Time) (d : Db) (s : Session)
      → session hash token now d ≡ ok s
      → (s.version ≡ d.settings.session_version) × (now < s.expires_at + nanoseconds)
  unfolding session
  session_sound token now d s e =
      let (version, fresh) = found_live token now d d.sessions s e in
      (version, db_time_lt_sound now s.expires_at fresh)
