-- ===== src/Util/Trace/Nesting.antt =====
-- The lines of traced functions are nested as their calls are.
use pmemcpy.Base.{
  suc, Bool-cases, ◌≡◌, ◌≢◌, refl, sym, ap, ◌∙◌, Option, Option-cases, inl, inr, none, some, List,
  [], ◌∷◌, ◌++◌, append-nil, append_assoc, Bytes, bytes_equal, bytes_equal_refl, if◌then◌else◌,
}
use mathlib.Core.Option.{some-injective}
use pmemcpy.Util.Numbers.{Floats}
use pmemcpy.Util.Serializeable.{Arg}
use pmemcpy.Util.Formatter.{format}
use pmemcpy.Util.Error.{Result, ok, throw, raise, fault}
use pmemcpy.Storage.Action.{Action, next}
use pmemcpy.Util.Trace.{
  Event, started, ended, Process, Console, AutoTrace, milliseconds, auto_trace, destroy, Body,
  returns, throws, calls, run,
}

-- The functions that are entered and not left after some lines; `none` if a line leaves another
-- function than the one that was entered last.
unfoldable pub matched : List Bytes → List Event → Option (List Bytes)
matched open_ones [] = some open_ones
matched open_ones (started text ∷ es) = matched (text ∷ open_ones) es
matched [] (ended text runtime ∷ es) = none
matched (t ∷ open_ones) (ended text runtime ∷ es) =
    let rest = matched open_ones es in if bytes_equal t text then rest else none

matched-append :
    (open_ones between : List Bytes) (es fs : List Event)
    → matched open_ones es ≡ some between
    → matched open_ones (es ++ fs) ≡ matched between fs
unfolding matched
matched-append open_ones between [] fs h =
    ap (λ o. matched o fs) (some-injective open_ones between h)
matched-append open_ones between (started text ∷ es) fs h =
    matched-append (text ∷ open_ones) between es fs h
matched-append [] between (ended text runtime ∷ es) fs h = absurd (cc)
matched-append (t ∷ open_ones) between (ended text runtime ∷ es) fs h =
    elim (Bool-cases (bytes_equal t text)) [
      | inl same ↦ rw same (matched-append open_ones between es fs (rw same at h))
      | inr differ ↦ absurd (cc (rw differ at h))
    ]

-- The lines between two states of the console are nested.
pub record Nested (c c' : Console) : Type 0 where
  pub lines : List Event
  pub added : c'.printed ≡ c.printed ++ lines
  pub nested : (open_ones : List Bytes) → matched open_ones lines ≡ some open_ones

Nested-refl : (c : Console) → Nested c c
unfolding matched
Nested-refl c = record { lines = []; added = sym (append-nil c.printed); nested = λ o. refl }

Nested-trans : (a b c : Console) → Nested a b → Nested b c → Nested a c
Nested-trans a b c m n = record {
  lines = m.lines ++ n.lines;
  added = n.added ∙ ap (λ x. x ++ n.lines) m.added ∙ append_assoc a.printed m.lines n.lines;
  nested = λ o. matched-append o o m.lines n.lines (m.nested o) ∙ n.nested o;
}

module _ (fl : Floats) (M : Process) where
  -- Where the behaviour of a function is defined, so is that of a first call, and what followed it.
  then_Nested :
      (c c' : Console) (r : Result (Unit {0})) (f : Action Console (Unit {0}))
      → Nested c c'
      → ((f c').0 ≢ fault → Nested c' (f c').1)
      → (next (r, c') (λ u. f)).0 ≢ fault
      → Nested c (next (r, c') (λ u. f)).1
  then_Nested c c' (ok u) f n h d = Nested-trans c c' _ n (h d)
  then_Nested c c' (throw e) f n h d = n
  then_Nested c c' raise f n h d = n
  then_Nested c c' fault f n h d = absurd (d refl)

  first_defined :
      (c' : Console) (r : Result (Unit {0})) (f : Action Console (Unit {0}))
      → (next (r, c') (λ u. f)).0 ≢ fault
      → r ≢ fault
  first_defined c' (ok u) f d = λ e. cc
  first_defined c' (throw x) f d = λ e. cc
  first_defined c' raise f d = λ e. cc
  first_defined c' fault f d = d

  -- The lines of a tracepoint around those of a function.
  around :
      (text : Bytes) (c c' c'' : Console) (t : AutoTrace)
      → t.fmt ≡ text
      → c'.printed ≡ c.printed ++ (started text ∷ [])
      → Nested c' c''
      → Nested c (destroy fl M t c'')
  unfolding destroy matched
  around text c c' c'' t same entered n = record {
    lines =
        started text
        ∷ (n.lines ++ (ended t.fmt (milliseconds t.start_time (M.clock c''.readings)) ∷ []));
    added = rw (
      n.added,
      entered,
      append_assoc c.printed (started text ∷ []) n.lines,
      append_assoc c.printed (started text ∷ n.lines)
          (ended t.fmt (milliseconds t.start_time (M.clock c''.readings)) ∷ []),
    );
    nested = λ o.
        matched-append (text ∷ o) (text ∷ o) n.lines _ (n.nested (text ∷ o))
        ∙ (rw (same, bytes_equal_refl text));
  }

  auto_trace-none :
      (fmt : Bytes) (args : List (Arg fl)) (c : Console)
      → format fl fmt args ≡ none
      → auto_trace fl M fmt args c ≡ (fault, c)
  unfolding auto_trace
  auto_trace-none fmt args c e = rw (e, auto_trace)

  pub auto_trace-some :
      (fmt text : Bytes) (args : List (Arg fl)) (c : Console)
      → format fl fmt args ≡ some text
      → auto_trace fl M fmt args c ≡ (
        ok (record { fmt = text; start_time = M.clock c.readings }),
        record { printed = c.printed ++ (started text ∷ []); readings = suc c.readings },
      )
  unfolding auto_trace
  auto_trace-some fmt text args c e = rw (e, auto_trace)

  -- Whatever traced functions do, as long as their messages can be formatted: each leaves the console
  -- with lines behind those that it found in which every function that was entered is left again, also by
  -- an exception, and in the reverse order, with the text that it was entered with.
  pub run-Nested :
      (b : Body fl M) (c : Console) → (run fl M b c).0 ≢ fault → Nested c (run fl M b c).1
  unfolding run
  run-Nested returns c d = Nested-refl c
  run-Nested (throws e) c d = Nested-refl c
  run-Nested (calls fmt args inner rest) c d = elim (Option-cases (format fl fmt args)) [
    | inl unformatted ↦ absurd (d (rw (auto_trace-none fmt args c unformatted)))
    | inr (text, formatted) ↦
        let d' = rw (auto_trace-some fmt text args c formatted) at d in
        let t : AutoTrace = record { fmt = text; start_time = M.clock c.readings } in
        let c1 : Console = record {
          printed = c.printed ++ (started text ∷ []);
          readings = suc c.readings;
        } in
        let c2 = (run fl M inner c1).1 in
        let r = (run fl M inner c1).0 in
        let own = run-Nested inner c1 (first_defined (destroy fl M t c2) r (run fl M rest) d') in
        rw (auto_trace-some fmt text args c formatted) (
          then_Nested c (destroy fl M t c2) r (run fl M rest) (around text c c1 c2 t refl refl own)
            (run-Nested rest (destroy fl M t c2)) d')
  ]
