-- ===== src/Restore/Parser/Chunks/Appending.antt =====
-- Appending, discarding and flushing do to a view what they do to the scan.
use mathlib.Core.Path.{fun_ext}
use dbgate_mysql_dumper.Restore.Parser.Step.{
  is_blank, Scan, append_up_to, flush_statement, append_to_statement, discard_pending_whitespace,
  emit, parsed_statement,
}
use dbgate_mysql_dumper.Base.{
  ℕ, [], ◌∷◌, ◌++◌, List, ◌≡◌, Bytes, length, join, refl, sym, ap, arith, inl, inr, Bool-cases,
  Bool, append_assoc, append-nil, eq_nil_of_length, every, length-append, join-append, ◌==◌,
  every-append,
}
use dbgate_mysql_dumper.Restore.Parser.State.{ok, ParsedStatement}
use dbgate_mysql_dumper.Restore.BinaryLiterals.{rewrite_binary_literals}
use dbgate_mysql_dumper.Text.Blank.{trim, trim_start, trim_end, is_trimmed}
use dbgate_mysql_dumper.Restore.Parser.Chunks.{
  view, view_result, Counts, forget_all_idem, forget_all-append, text_of,
}

module _ (earlier : List ParsedStatement) (s : Scan) where
  pub append_up_to-view :
      Counts s
      → view_result earlier (append_up_to s) ≡ view_result [] (append_up_to (view earlier s))
  unfolding append_up_to append_to_statement
  append_up_to-view h =
      let parts = s.parser.statement_parts in
      let text = join parts ++ s.pending in
      elim (Bool-cases (length s.pending == 0)) [
        | inl e ↦
            let none_pending : s.pending ≡ [] = eq_nil_of_length s.pending (ground arith) in
            let same_text : text ≡ join parts = rw none_pending (append-nil (join parts)) in
            elim (Bool-cases (length text == 0)) [
              | inl f ↦
                  let no_text : text ≡ [] = eq_nil_of_length text (ground arith) in
                  ground (arith, forget_all_idem (earlier ++ s.emitted), append-nil (join parts))
              | inr f ↦ ground (
                arith,
                forget_all_idem (earlier ++ s.emitted),
                append-nil (join parts),
                append-nil text,
              )
            ]
        | inr e ↦ ground (
          arith,
          forget_all_idem (earlier ++ s.emitted),
          join-append parts (s.pending ∷ []),
          append-nil s.pending,
          append-nil (join parts ++ s.pending),
          length-append (join parts) s.pending,
        )
      ]

  -- Once a statement is appended, nothing is pending.
  pub append_up_to-pending : {s' : Scan} → append_up_to s ≡ ok s' → s'.pending ≡ []
  unfolding append_up_to append_to_statement
  append_up_to-pending e = ground arith

  pub Counts-append_up_to : {s' : Scan} → Counts s → append_up_to s ≡ ok s' → Counts s'
  unfolding append_up_to append_to_statement
  Counts-append_up_to h e =
      let parts = s.parser.statement_parts in
      ground (
        arith,
        join-append parts (s.pending ∷ []),
        append-nil s.pending,
        length-append (join parts) s.pending,
      )

every-join : (p : ℕ → Bool) (parts : List Bytes) → every p (join parts) ≡ every (every p) parts
unfolding every
every-join p [] = refl
every-join p (part ∷ parts) = rw every-append (rw (every-join p parts))

trim_end_blank : (text : Bytes) → (length (trim_end text) == 0) ≡ every is_trimmed text
unfolding trim_end every
trim_end_blank [] = refl
trim_end_blank (c ∷ cs) = ground (arith, trim_end_blank cs)

trim_blank : (text : Bytes) → is_blank text ≡ every is_trimmed text
unfolding is_blank trim trim_start every
trim_blank [] = refl
trim_blank (c ∷ cs) = ground (arith, trim_blank cs, trim_end_blank cs)

every-is_blank : (parts : List Bytes) → every is_blank parts ≡ every is_trimmed (join parts)
every-is_blank parts = rw (fun_ext trim_blank) (sym (every-join is_trimmed parts))

-- Two scans with one view, in which nothing is pending.
module _ (ea eb : List ParsedStatement) (a b : Scan) (h : view ea a ≡ view eb b)
    (na : a.pending ≡ []) (nb : b.pending ≡ []) where
  text-eq : join a.parser.statement_parts ≡ join b.parser.statement_parts
  text-eq =
      let texts : text_of a ≡ text_of b = ap (λ (s : Scan). s.pending) h in
      cc (append-nil (join a.parser.statement_parts), append-nil (join b.parser.statement_parts))

  pub discard_pending_whitespace-view :
      view ea (discard_pending_whitespace a) ≡ view eb (discard_pending_whitespace b)
  unfolding discard_pending_whitespace every
  discard_pending_whitespace-view = ground (
    arith,
    text-eq,
    every-is_blank a.parser.statement_parts,
    every-is_blank b.parser.statement_parts,
    append-nil (join a.parser.statement_parts),
    append-nil (join b.parser.statement_parts),
  )

  pub flush_statement-view : view_result ea (flush_statement a) ≡ view_result eb (flush_statement b)
  unfolding flush_statement emit parsed_statement
  flush_statement-view =
      let rewrite = rewrite_binary_literals (trim (join a.parser.statement_parts)) in
      let x = parsed_statement a.parser rewrite in
      let y = parsed_statement b.parser rewrite in
      ground (
        arith,
        text-eq,
        forget_all-append (ea ++ a.emitted) (x ∷ []),
        append_assoc ea a.emitted (x ∷ []),
        forget_all-append (eb ++ b.emitted) (y ∷ []),
        append_assoc eb b.emitted (y ∷ []),
      )
