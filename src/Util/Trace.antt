-- ===== src/Util/Trace.antt =====
-- include/pmemcpy/util/trace.h: `AutoTrace`, which a build with DEBUG puts at the top of a function by
-- AUTO_TRACE. A `std::string` that is printed ends at its first NUL.
pub mod Nesting
use pmemcpy.Base.{
  ℕ, zero, suc, ◌-◌, ◌/◌, ◌^◌, ◌≡◌, ◌≢◌, refl, sym, ap, ◌∙◌, Bool, true, false, Option, none, some,
  List, [], ◌∷◌, ◌++◌, append-nil, append_assoc, Bytes, codes, ◌==◌, leb, bytes_equal,
  bytes_equal_refl, if◌then◌else◌,
}
use pmemcpy.Util.Numbers.{ℤ, pos, negsuc, Floats, to_string_u}
use pmemcpy.Util.Serializeable.{Arg}
use pmemcpy.Util.Formatter.{format}
use pmemcpy.Util.Error.{Error, Result, ok, throw, raise, fault}
use pmemcpy.Storage.Action.{Action, next, ◌>>◌}

-- What is printed: that a function was entered, and that it was left after so many milliseconds.
pub data Event : Type 0 where
  started : Bytes → Event
  ended : Bytes → ℤ → Event

-- The process and its thread; the time of each reading of the clock, in nanoseconds; `%lf`.
pub record Process : Type 0 where
  pub pid : ℕ
  pub tid : ℕ
  pub clock : ℕ → ℕ
  pub lf : ℤ → Bytes

-- What was printed, and how often the clock was read.
pub record Console : Type 0 where
  pub printed : List Event
  pub readings : ℕ

-- `fmt_` and `start_time_`
pub record AutoTrace : Type 0 where
  pub fmt : Bytes
  pub start_time : ℕ

unfoldable pub c_str : Bytes → Bytes
c_str [] = []
c_str (c ∷ rest) = let text = c_str rest in if c == 0 then [] else c ∷ text

abbrev pub opposite : ℕ → ℤ
opposite zero = pos 0
opposite (suc n) = negsuc n

-- The whole milliseconds from one time to another, which may be before it.
unfoldable pub milliseconds : ℕ → ℕ → ℤ
milliseconds start end_time =
    if leb start end_time
    then pos ((end_time - start) / 10 ^ 6)
    else opposite ((start - end_time) / 10 ^ 6)

module _ (fl : Floats) (M : Process) where
  -- A printed line.
  unfoldable pub line : Event → Bytes
  unfolding c_str
  line (started fmt) =
      codes "START: "
      ++ (c_str fmt
          ++ (codes ", pid="
              ++ (to_string_u M.pid ++ (codes ", tid=" ++ (to_string_u M.tid ++ codes "\n")))))
  line (ended fmt runtime) =
      codes "END: "
      ++ (c_str fmt
          ++ (codes ", pid="
              ++ (to_string_u M.pid
                  ++ (codes ", tid="
                      ++ (to_string_u M.tid
                          ++ (codes ", runtime=" ++ (M.lf runtime ++ codes "\n")))))))

  -- `AutoTrace(fmt, args...)`
  unfoldable pub auto_trace : Bytes → List (Arg fl) → Action Console AutoTrace
  auto_trace fmt args c = elim (format fl fmt args) [
    | none ↦ (fault, c)
    | some text ↦ (
      ok (record { fmt = text; start_time = M.clock c.readings }),
      record { printed = c.printed ++ (started text ∷ []); readings = suc c.readings },
    )
  ]

  -- `~AutoTrace()`
  unfoldable pub destroy : AutoTrace → Console → Console
  unfolding milliseconds
  destroy t c = record {
    printed = c.printed ++ (ended t.fmt (milliseconds t.start_time (M.clock c.readings)) ∷ []);
    readings = suc c.readings;
  }

  -- A function with AUTO_TRACE at its top: the tracepoint lives until the function returns or throws.
  abbrev pub traced : Bytes → List (Arg fl) → Action Console (Unit {0}) → Action Console (Unit {0})
  traced fmt args body c =
      next (auto_trace fmt args c) (λ t c'. let (r, c'') = body c' in (r, destroy t c''))

  -- What a function does, as far as it is traced: it returns, throws, or calls another such function.
  pub data Body : Type 0 where
    returns : Body
    throws : Error → Body
    calls : Bytes → List (Arg fl) → Body → Body → Body

  unfoldable pub run : Body → Action Console (Unit {0})
  run returns c = (ok tt, c)
  run (throws e) c = (throw e, c)
  run (calls fmt args inner rest) c = (traced fmt args (run inner) >> run rest) c
