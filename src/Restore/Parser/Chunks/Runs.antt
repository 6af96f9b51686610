-- ===== src/Restore/Parser/Chunks/Runs.antt =====
-- A scan of a text in one piece and in two: the rounds of the first part are those of the whole.
use dbgate_mysql_dumper.Base.{
  ℕ, [], ◌∷◌, ◌++◌, List, ◌≡◌, Bytes, refl, sym, ◌∙◌, subst, arith, Bool, false,
}
use dbgate_mysql_dumper.Restore.Parser.State.{ok, ParsedStatement}
use dbgate_mysql_dumper.Restore.Parser.Step.{Scan, Step, advance, hold, fail, step}
use dbgate_mysql_dumper.Restore.Parser.Scan.{stop}
use dbgate_mysql_dumper.Restore.Parser.Chunks.{view, view_step}
use dbgate_mysql_dumper.Restore.Parser.Chunks.Prefix.{Safe}
use dbgate_mysql_dumper.Restore.Parser.Chunks.Rounds.{step-view}
use dbgate_mysql_dumper.Restore.Parser.Chunks.Stable.{step-Stable}
use dbgate_mysql_dumper.Restore.Parser.Chunks.StableCases.{Stable}
use dbgate_mysql_dumper.Restore.Parser.Chunks.Holding.{step-hold}
use dbgate_mysql_dumper.Restore.Parser.Chunks.Scans.{
  ok_injective, Scans, ends, goes, waits, Sound, Sound-Counts, step-Sound, stop-view,
}

-- The step of the one scan, when that of the other is known.
view_step-advance :
    (ea eb : List ParsedStatement) (a : Scan) (rest : Bytes) (t : Step)
    → view_step ea (advance a rest) ≡ view_step eb t
    → (b : Scan) × (t ≡ advance b rest) × (view ea a ≡ view eb b)
view_step-advance ea eb a rest (advance b rest') h = (b, ground arith, ground arith)
view_step-advance ea eb a rest (hold b) h = cc
view_step-advance ea eb a rest (fail e) h = cc

view_step-hold :
    (ea eb : List ParsedStatement) (a : Scan) (t : Step)
    → view_step ea (hold a) ≡ view_step eb t
    → (b : Scan) × (t ≡ hold b) × (view ea a ≡ view eb b)
view_step-hold ea eb a (advance b rest) h = cc
view_step-hold ea eb a (hold b) h = (b, refl, cc)
view_step-hold ea eb a (fail e) h = cc

pub hold-Sound :
    (s s' : Scan) (c : ℕ) (r : Bytes) (at_end : Bool)
    → Sound s
    → step s c r at_end ≡ hold s'
    → Sound s'
hold-Sound s s' c r at_end h e = subst Sound (sym (step-hold s s' c r at_end h.tidy e)) h

-- Scans with one view go on alike, to scans with one view.
pub Scans-view :
    (ea eb : List ParsedStatement) (at_end : Bool) (a b a' : Scan) (text : Bytes)
    → Scans at_end a text a'
    → Sound a
    → Sound b
    → view ea a ≡ view eb b
    → (b' : Scan) × Scans at_end b text b'
      × (view ea a' ≡ view eb b')
      × (a'.parser.carry ≡ b'.parser.carry)
Scans-view ea eb at_end a b a' [] (ends e) ha hb h =
    let (b', k, same, carry) =
      stop-view ea eb a b a' [] (Sound-Counts a ha) (Sound-Counts b hb) h e in
    (b', ends k, same, carry)
Scans-view ea eb at_end a b a' (c ∷ r) (goes s rest e d) ha hb h =
    let views =
      step-view ea eb a b c r at_end (Sound-Counts a ha) (Sound-Counts b hb) ha.tidy hb.tidy h in
    let (s', f, same) = view_step-advance ea eb s rest (step b c r at_end) (rw e at views) in
    let (b', d', final, carry) =
      Scans-view ea eb at_end s s' a' rest d (step-Sound a s c r rest at_end ha e)
        (step-Sound b s' c r rest at_end hb f) same in
    (b', goes s' rest f d', final, carry)
Scans-view ea eb at_end a b a' (c ∷ r) (waits s e k) ha hb h =
    let views =
      step-view ea eb a b c r at_end (Sound-Counts a ha) (Sound-Counts b hb) ha.tidy hb.tidy h in
    let (s', f, same) = view_step-hold ea eb s (step b c r at_end) (rw e at views) in
    let (b', k', final, carry) =
      stop-view ea eb s s' a' (c ∷ r) (Sound-Counts s (hold-Sound a s c r at_end ha e))
        (Sound-Counts s' (hold-Sound b s' c r at_end hb f)) same k in
    (b', waits s' f k', final, carry)

-- Where a scan that is not at the end of the input stands when it stops, and that any longer text is
-- scanned by way of it.
pub record Passes (s : Scan) (text : Bytes) (t : Scan) : Type 0 where
  pub reached : Scan
  pub rest : Bytes
  pub sound : Sound reached
  pub stopped : stop reached rest ≡ ok t
  pub goes_on :
      (more : Bytes) (at_end : Bool) (u : Scan)
      → Scans at_end reached (rest ++ more) u
      → Scans at_end s (text ++ more) u

pub Scans-Passes :
    (s t : Scan) (text : Bytes) → Scans false s text t → Sound s → Safe text → Passes s text t
Scans-Passes s t [] (ends e) h safe = record {
  reached = s;
  rest = [];
  sound = h;
  stopped = e;
  goes_on = λ more at_end u d. d;
}
Scans-Passes s t (c ∷ r) (goes s' rest e d) h safe =
    let stable : (more : Bytes) (b : Bool)
        → Stable more (advance s' rest) (step s c (r ++ more) b) =
      λ more b.
        subst (λ x. Stable more x (step s c (r ++ more) b)) e (step-Stable s c r more b safe) in
    let next = Scans-Passes s' t rest d (step-Sound s s' c r rest false h e) (stable [] false).1 in
    record {
      reached = next.reached;
      rest = next.rest;
      sound = next.sound;
      stopped = next.stopped;
      goes_on = λ more b u d'. goes s' (rest ++ more) (stable more b).0 (next.goes_on more b u d');
    }
Scans-Passes s t (c ∷ r) (waits s' e k) h safe = record {
  reached = s;
  rest = c ∷ r;
  sound = h;
  stopped = subst (λ x. stop x (c ∷ r) ≡ ok t) (step-hold s s' c r false h.tidy e) k;
  goes_on = λ more at_end u d. d;
}

pub advance-injective : (a b : Scan) (x y : Bytes) → advance a x ≡ advance b y → (a ≡ b) × (x ≡ y)
advance-injective a b x y h = (ground arith, ground arith)

pub hold-injective : (a b : Scan) → hold a ≡ hold b → a ≡ b
hold-injective a b h = ground arith

pub Scans-unique :
    (at_end : Bool) (s t t' : Scan) (text : Bytes)
    → Scans at_end s text t
    → Scans at_end s text t'
    → t ≡ t'
Scans-unique at_end s t t' [] (ends e) (ends e') = ok_injective (sym e ∙ e')
Scans-unique at_end s t t' (c ∷ r) (goes a x e d) (goes b y e' d') =
    let (same, rests) = advance-injective a b x y (sym e ∙ e') in
    Scans-unique at_end b t t' y
      (subst (λ z. Scans at_end b z t) rests (subst (λ z. Scans at_end z x t) same d)) d'
Scans-unique at_end s t t' (c ∷ r) (goes a x e d) (waits b e' k) = cc
Scans-unique at_end s t t' (c ∷ r) (waits a e k) (goes b y e' d') = cc
Scans-unique at_end s t t' (c ∷ r) (waits a e k) (waits b e' k') =
    ok_injective (sym (subst (λ z. stop z (c ∷ r) ≡ ok t) (hold-injective a b (sym e ∙ e')) k) ∙ k')
