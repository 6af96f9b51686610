-- ===== src/Restore/Dump/Undone.antt =====
-- `finalize` of src/restore/restoreSqlDump.ts: the statements that it sends.
use dbgate_mysql_dumper.Base.{
  [], ◌∷◌, ◌++◌, List, ◌≡◌, Bytes, refl, sym, ap, ◌∙◌, inl, inr, Bool-cases, Bool, true, false,
  ◌&&◌, append_assoc, append-nil, if◌then◌else◌, codes,
}
use dbgate_mysql_dumper.Restore.Session.{GuardCode, table_locks, Guard, guard_patterns, has_code}
use dbgate_mysql_dumper.Planning.Archive.Model.{or_default}
use dbgate_mysql_dumper.Restore.Dump.State.{
  Exchange, Server, RestoreOptions, Restore, answer_to, send, is_done,
}
use dbgate_mysql_dumper.Restore.Dump.Finalize.{
  restore_guards, restore_session, warn_restored, roll_back, finalize,
}

abbrev pub texts : List Exchange → List Bytes
texts [] = []
texts ((sql, a) ∷ xs) = sql ∷ texts xs

texts-append : (xs ys : List Exchange) → texts (xs ++ ys) ≡ texts xs ++ texts ys
texts-append [] ys = refl
texts-append ((sql, a) ∷ xs) ys = ap (λ t. sql ∷ t) (texts-append xs ys)

abbrev pub only_if : Bool → List Bytes → List Bytes
only_if true xs = xs
only_if false xs = []

-- The statements of the guards whose codes were changed, in the order of the guards.
abbrev pub undoing : List GuardCode → List Guard → List Bytes
undoing changed [] = []
undoing changed (g ∷ gs) = only_if (has_code g.code changed) (g.restore ∷ []) ++ undoing changed gs

-- The statements that leave nothing of the dump behind.
abbrev pub cleanup : RestoreOptions → Restore → List Bytes
cleanup options s =
    only_if s.transaction_open (codes "ROLLBACK" ∷ [])
    ++ only_if (or_default options.restore_session_state true) (
        only_if (has_code table_locks s.changed) (codes "UNLOCK TABLES" ∷ [])
        ++ undoing s.changed guard_patterns)

module _ (server : Server) where
  send_if-texts :
      (b : Bool) (sql : Bytes) (s : Restore)
      → texts (if b then send server sql s else s).sent ≡ texts s.sent ++ only_if b (sql ∷ [])
  unfolding send
  send_if-texts true sql s = texts-append s.sent ((sql, answer_to server s sql) ∷ [])
  send_if-texts false sql s = sym (append-nil (texts s.sent))

  restore_guards-texts :
      (gs : List Guard) (changed : List GuardCode) (s : Restore) (restored : List GuardCode)
      → texts (restore_guards server gs changed s restored).0.sent
        ≡ texts s.sent ++ undoing changed gs
  unfolding restore_guards
  restore_guards-texts [] changed s restored = sym (append-nil (texts s.sent))
  restore_guards-texts (g ∷ gs) changed s restored =
      let sends = has_code g.code changed in
      let s' = if sends then send server g.restore s else s in
      restore_guards-texts gs changed s' (
        if sends && is_done (answer_to server s g.restore)
        then restored ++ g.code ∷ []
        else restored)
      ∙ (ap (λ xs. xs ++ undoing changed gs) (send_if-texts sends g.restore s)
          ∙ append_assoc (texts s.sent) (only_if sends (g.restore ∷ [])) (undoing changed gs))

  restore_session-texts :
      (s : Restore)
      → texts (restore_session server s).0.sent
        ≡ texts s.sent
          ++ (only_if (has_code table_locks s.changed) (codes "UNLOCK TABLES" ∷ [])
              ++ undoing s.changed guard_patterns)
  unfolding restore_session
  restore_session-texts s =
      let unlock = codes "UNLOCK TABLES" in
      let locked = has_code table_locks s.changed in
      let s' = if locked then send server unlock s else s in
      restore_guards-texts guard_patterns s.changed s'
        (if locked && is_done (answer_to server s unlock) then table_locks ∷ [] else [])
      ∙ (ap (λ xs. xs ++ undoing s.changed guard_patterns) (send_if-texts locked unlock s)
          ∙ append_assoc (texts s.sent) (only_if locked (unlock ∷ []))
              (undoing s.changed guard_patterns))

  roll_back-texts :
      (s : Restore)
      → (texts (roll_back server s).sent
          ≡ texts s.sent ++ only_if s.transaction_open (codes "ROLLBACK" ∷ []))
        × ((roll_back server s).changed ≡ s.changed)
  unfolding roll_back send
  roll_back-texts s = elim (Bool-cases s.transaction_open) [
    | inl is_open ↦
        rw is_open (
          texts-append s.sent ((codes "ROLLBACK", answer_to server s (codes "ROLLBACK")) ∷ []),
          refl,
        )
    | inr is_closed ↦ rw is_closed (sym (append-nil (texts s.sent)), refl)
  ]

  warn_restored-texts :
      (changed : List GuardCode) (s : Restore) → (warn_restored changed s).sent ≡ s.sent
  unfolding warn_restored
  warn_restored-texts [] s = refl
  warn_restored-texts (c ∷ cs) s = refl

  -- Whatever the connection answers, `finalize` sends `ROLLBACK` when a transaction is open, and then,
  -- unless it is told not to, `UNLOCK TABLES` when tables are locked and the statement of each guard that
  -- was changed, in the order of the guards, and nothing else.
  pub finalize-texts :
      (options : RestoreOptions) (s : Restore)
      → texts (finalize server options s).sent ≡ texts s.sent ++ cleanup options s
  unfolding finalize
  finalize-texts options s =
      let rolled = roll_back server s in
      let (sent, changed) = roll_back-texts s in
      let wanted = or_default options.restore_session_state true in
      let restored = restore_session server rolled in
      let back = only_if s.transaction_open (codes "ROLLBACK" ∷ []) in
      elim (Bool-cases wanted) [
        | inl undoes ↦ rw undoes (
            ap texts (warn_restored-texts restored.1 restored.0)
            ∙ (restore_session-texts rolled
                ∙ rw (changed, sent) (append_assoc (texts s.sent) back _)))
        | inr leaves ↦ rw leaves (sent ∙ ap (λ xs. texts s.sent ++ xs) (sym (append-nil back)))
      ]
