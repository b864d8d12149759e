-- ===== src/Tests/Traces.antt =====
-- Traced functions, and buffers over mappings, at concrete inputs.
use pmemcpy.Base.{ℕ, ◌≡◌, ◌≢◌, refl, Bool, true, false, some, [], ◌∷◌, codes, ◌==◌, if◌then◌else◌}
use pmemcpy.Util.Errors.{pmdk_cant_find_key}
use pmemcpy.Util.Error.{fault, throw, continues, exits}
use pmemcpy.Util.Formatter.{format}
use pmemcpy.Util.Formatter.Render.{pieces, fill, format-fill}
use pmemcpy.Util.Trace.{Process, Console, Body, returns, throws, calls, run, started}
use pmemcpy.Util.Trace.Nesting.{Nested, auto_trace-some, run-Nested}
use pmemcpy.Storage.Mappings.{Mappings, IsMappings, at}
use pmemcpy.Storage.Posix.Buffer.{MappedBuffer, copy, move, and_then, destroy, destroy-copy_mapped}
use pmemcpy.Tests.Machine.{floats}

-- A clock that counts milliseconds.
abbrev process : Process
process = record { pid = 1; tid = 2; clock = λ n. n; lf = λ n. codes "0.000000" }

-- A function that calls one that throws.
abbrev body : Body floats process
body = calls (codes "a") [] (calls (codes "b") [] (throws pmdk_cant_find_key) returns) returns

abbrev console : Console
console = record { printed = []; readings = 0 }

abbrev inside : Console
inside = record { printed = started (codes "a") ∷ []; readings = 1 }

formatted_a : format floats (codes "a") [] ≡ some (codes "a")
unfolding pieces fill
formatted_a = format-fill floats (codes "a") []

formatted_b : format floats (codes "b") [] ≡ some (codes "b")
unfolding pieces fill
formatted_b = format-fill floats (codes "b") []

body_result : (run floats process body console).0 ≡ throw pmdk_cant_find_key
unfolding run
body_result = rw (
  auto_trace-some floats process (codes "a") (codes "a") [] console formatted_a,
  auto_trace-some floats process (codes "b") (codes "b") [] inside formatted_b,
)

body_defined : (run floats process body console).0 ≢ fault
body_defined e = cc (body_result, e)

run-Nested_example : Nested console (run floats process body console).1
run-Nested_example = run-Nested floats process body console body_defined

-- One mapping after the other, of which those at the addresses of the list are left.
abbrev space : Mappings
space = record {
  Space = ℕ → Bool;
  is_mapped = λ s i. s i;
  msync = λ i n s. s i;
  munmap = λ i n s. λ j. if j == i then false else s j;
}

space-IsMappings : IsMappings space
space-IsMappings = record {
  is_mapped-munmap = λ i n j s. refl;
  msync_unmapped = λ i n s gone. gone;
}

abbrev everything : ℕ → Bool
everything i = true

abbrev buffer : MappedBuffer
buffer = record { buf = at 4096; size = 10 }

destroy-copy_mapped_example :
    (destroy space buffer everything ≡ continues (space.munmap 4096 10 everything))
    × (and_then (destroy space buffer everything) (destroy space (copy buffer))
        ≡ exits (codes "Yep, it failed..\n") 1)
    × (and_then (destroy space (move buffer).1 everything) (destroy space (move buffer).0)
        ≡ continues (space.munmap 4096 10 everything))
    × (and_then (destroy space (move buffer).0 everything) (destroy space (move buffer).1)
        ≡ continues (space.munmap 4096 10 everything))
destroy-copy_mapped_example =
    destroy-copy_mapped space space-IsMappings buffer 4096 everything refl refl
