-- ===== src/Restore/Parser/Chunks/Scans.antt =====
-- A call of `scan` that succeeds, as a relation with no fuel: its rounds one after another.
use dbgate_mysql_dumper.Base.{
  ℕ, zero, suc, [], ◌∷◌, ◌++◌, List, ◌≡◌, Bytes, join, refl, sym, ap, ◌∙◌, subst, arith, Bool,
  append-nil, eq_nil_of_length, join-append,
}
use dbgate_mysql_dumper.Restore.Parser.State.{Result, ok, err, ◌>>=◌, ParsedStatement}
use dbgate_mysql_dumper.Restore.Parser.Step.{
  Scan, Step, advance, hold, fail, step, append_up_to, append_to_statement,
}
use dbgate_mysql_dumper.Restore.Parser.Scan.{scan_loop, stop, resume}
use dbgate_mysql_dumper.Restore.Parser.Invariant.{Inv, Good, Kept}
use dbgate_mysql_dumper.Restore.Parser.Invariant.Ops.{append_up_to-Kept}
use dbgate_mysql_dumper.Restore.Parser.Invariant.Rounds.{step-Good}
use dbgate_mysql_dumper.Restore.Parser.Chunks.{view, view_result, Counts}
use dbgate_mysql_dumper.Restore.Parser.Chunks.Appending.{append_up_to-view, append_up_to-pending}
use dbgate_mysql_dumper.Restore.Parser.Chunks.Discarding.{
  append_up_to-Tidy, Tidy, TidyStep, step-TidyStep,
}

pub data Scans (at_end : Bool) : Scan → Bytes → Scan → Type 0 where
  ends : {s t : Scan} → stop s [] ≡ ok t → Scans at_end s [] t
  goes :
      {s t : Scan} {c : ℕ} {r : Bytes} (s' : Scan) (rest : Bytes)
      → step s c r at_end ≡ advance s' rest
      → Scans at_end s' rest t
      → Scans at_end s (c ∷ r) t
  waits :
      {s t : Scan} {c : ℕ} {r : Bytes} (s' : Scan)
      → step s c r at_end ≡ hold s'
      → stop s' (c ∷ r) ≡ ok t
      → Scans at_end s (c ∷ r) t

resumed-Scans :
    (loop : Scan → Bytes → Result Scan) (s : Scan) (c : ℕ) (r : Bytes) (at_end : Bool) (x : Step)
    {t : Scan}
    → step s c r at_end ≡ x
    → ((s' : Scan) (rest : Bytes) → loop s' rest ≡ ok t → Scans at_end s' rest t)
    → resume loop (c ∷ r) x ≡ ok t
    → Scans at_end s (c ∷ r) t
unfolding resume
resumed-Scans loop s c r at_end (advance s' rest) h k e = goes s' rest h (k s' rest e)
resumed-Scans loop s c r at_end (hold s') h k e = waits s' h e
resumed-Scans loop s c r at_end (fail f) h k e = cc

pub scan_loop-Scans :
    (fuel : ℕ) (s : Scan) (text : Bytes) (at_end : Bool) {t : Scan}
    → scan_loop fuel s text at_end ≡ ok t
    → Scans at_end s text t
unfolding scan_loop
scan_loop-Scans zero s text at_end e = cc
scan_loop-Scans (suc fuel) s [] at_end e = ends e
scan_loop-Scans (suc fuel) s (c ∷ r) at_end e =
    resumed-Scans _ s c r at_end (step s c r at_end) refl
      (λ s' rest h. scan_loop-Scans fuel s' rest at_end h) e

-- What a scan keeps that the views go by.
pub record Sound (s : Scan) : Type 0 where
  pub index : ℕ
  pub line : ℕ
  pub inv : Inv index line s
  pub tidy : Tidy s

pub Sound-Counts : (s : Scan) → Sound s → Counts s
Sound-Counts s h = record { byte_length = h.inv.byte_length; in_limit = h.inv.in_limit }

pub step-Sound :
    (s s' : Scan) (c : ℕ) (r rest : Bytes) (at_end : Bool)
    → Sound s
    → step s c r at_end ≡ advance s' rest
    → Sound s'
step-Sound s s' c r rest at_end h e = record {
  index = h.index;
  line = h.line;
  inv = (subst (Good h.index h.line r) e (step-Good s c r at_end h.inv)).0;
  tidy = subst TidyStep e (step-TidyStep s c r at_end h.tidy);
}

-- What the end of a scan does: nothing is pending, the rest is carried over, the view is kept.
pub record Stopped (s : Scan) (rest : Bytes) (t : Scan) : Type 0 where
  pub sound : Sound t
  pub pending : t.pending ≡ []
  pub carry : t.parser.carry ≡ rest
  pub same_view : (earlier : List ParsedStatement) → view earlier t ≡ view earlier s

append_up_to-kept_view :
    (s t : Scan) (earlier : List ParsedStatement)
    → append_up_to s ≡ ok t
    → view earlier t ≡ view earlier s
unfolding append_up_to append_to_statement
append_up_to-kept_view s t earlier e =
    let parts = s.parser.statement_parts in
    ground (
      arith,
      eq_nil_of_length s.pending,
      join-append parts (s.pending ∷ []),
      append-nil s.pending,
      append-nil (join parts ++ s.pending),
    )

abbrev pub carried : Bytes → Scan → Scan
carried rest s = record s { parser = record s.parser { carry = rest } }

pub bind-ok {ℓ κ} :
    {A : Type ℓ} {B : Type κ} (m : Result A) (f : A → Result B) {t : B}
    → (m >>= f) ≡ ok t
    → (a : A) × (m ≡ ok a) × (f a ≡ ok t)
bind-ok (ok a) f e = (a, refl, e)
bind-ok (err x) f e = cc

pub ok_injective {ℓ} : {A : Type ℓ} {a b : A} → ok a ≡ ok b → a ≡ b
ok_injective h = cc

pub stop-cases :
    (s t : Scan) (rest : Bytes)
    → stop s rest ≡ ok t
    → (s' : Scan) × (append_up_to s ≡ ok s') × (carried rest s' ≡ t)
unfolding stop
stop-cases s t rest e =
    let (s', h, k) = bind-ok (append_up_to s) (λ s'. ok (carried rest s')) e in
    (s', h, ok_injective k)

appended-Sound : (s s' : Scan) → Sound s → append_up_to s ≡ ok s' → Sound s'
appended-Sound s s' h e = record {
  index = h.index;
  line = h.line;
  inv = subst (Kept h.index h.line) e (append_up_to-Kept h.inv);
  tidy = ground (arith, append_up_to-Tidy s s' e, h.tidy);
}

carried-Sound : (s : Scan) (rest : Bytes) → Sound s → Sound (carried rest s)
carried-Sound s rest h = record {
  index = h.index;
  line = h.line;
  inv = ground (arith, h.inv);
  tidy = h.tidy;
}

pub stop-Stopped : (s t : Scan) (rest : Bytes) → Sound s → stop s rest ≡ ok t → Stopped s rest t
stop-Stopped s t rest h e =
    let (s', appended, same) = stop-cases s t rest e in
    subst (Stopped s rest) same (record {
      sound = carried-Sound s' rest (appended-Sound s s' h appended);
      pending = append_up_to-pending [] s appended;
      carry = refl;
      same_view = λ earlier. append_up_to-kept_view s s' earlier appended;
    })

-- Scans with one view stop alike.
appended-view :
    (ea eb : List ParsedStatement) (a b : Scan)
    → Counts a
    → Counts b
    → view ea a ≡ view eb b
    → view_result ea (append_up_to a) ≡ view_result eb (append_up_to b)
appended-view ea eb a b ha hb h =
    append_up_to-view ea a ha
    ∙ ap (λ s. view_result [] (append_up_to s)) h
    ∙ sym (append_up_to-view eb b hb)

pub view_result-ok :
    (ea eb : List ParsedStatement) (a : Scan) (m : Result Scan)
    → view_result ea (ok a) ≡ view_result eb m
    → (b : Scan) × (m ≡ ok b) × (view ea a ≡ view eb b)
view_result-ok ea eb a (ok b) h = (b, refl, ok_injective h)
view_result-ok ea eb a (err e) h = cc

pub stop-appended :
    (s s' : Scan) (rest : Bytes) → append_up_to s ≡ ok s' → stop s rest ≡ ok (carried rest s')
unfolding stop
stop-appended s s' rest h = ground (arith, h)

pub stop-view :
    (ea eb : List ParsedStatement) (a b a' : Scan) (rest : Bytes)
    → Counts a
    → Counts b
    → view ea a ≡ view eb b
    → stop a rest ≡ ok a'
    → (b' : Scan) × (stop b rest ≡ ok b')
      × (view ea a' ≡ view eb b')
      × (a'.parser.carry ≡ b'.parser.carry)
stop-view ea eb a b a' rest ha hb h e =
    let (a1, appended, same) = stop-cases a a' rest e in
    let views = rw appended at (appended-view ea eb a b ha hb h) in
    let (b1, appended', same') = view_result-ok ea eb a1 (append_up_to b) views in
    (
      carried rest b1,
      stop-appended b b1 rest appended',
      subst (λ x. view ea x ≡ view eb b1) same same',
      sym (ap (λ (x : Scan). x.parser.carry) same),
    )
