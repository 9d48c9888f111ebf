-- ===== src/Engine/Policy/Decided.antt =====
-- A choice of a backend comes about, and is consistent in what it says.
use julie_semantic_sidecar.Prelude.{
  map, String, str_eq, not, ◌≡◌, refl, sym, ap, subst, List, Option, none, some, Result, ok, err,
}
use julie_semantic_sidecar.Backend.Selection.{
  cpu, BackendCandidate, Selection, selection, cpu_selection, degraded_to_cpu,
}
use julie_semantic_sidecar.Backend.Discovery.{Machine, Discovery}
use julie_semantic_sidecar.Backend.Runtime.{ProbeTiming, RuntimeSelection}
use julie_semantic_sidecar.Backend.Runtime.Fastest.{IsBest, accelerator, floor}
use julie_semantic_sidecar.Backend.Cache.{
  CacheCodec, CacheIo, RuntimeCachedChoice, into_runtime, keyed, read_runtime_cache,
}
use julie_semantic_sidecar.Backend.Select.{degraded_runtime}
use julie_semantic_sidecar.Backend.Select.Steps.{as_measured}
use julie_semantic_sidecar.Backend.Select.Laws.{
  IsChosen, bypassed, refused, remembered, measured, broken,
}

-- A selection says that it is accelerated if and only if it names something other than the CPU.
abbrev pub IsConsistent : Selection → Type 0
IsConsistent s = s.accelerated ≡ not (str_eq s.resolved cpu)

pub degraded_to_cpu-IsConsistent :
    (requested reason : String) → IsConsistent (degraded_to_cpu requested reason)
unfolding degraded_to_cpu selection
degraded_to_cpu-IsConsistent requested reason = refl

best-IsConsistent :
    (ms : List _) (t : ProbeTiming) (r : RuntimeSelection)
    → IsBest ms t r
    → IsConsistent r.selection
best-IsConsistent ms t r (accelerator m timing a b c d e) = e.3
best-IsConsistent ms t r (floor a (resolved, d, i, accelerated)) = rw (resolved) accelerated

abbrev Kept : Option RuntimeSelection → Type 0
Kept none = Unit
Kept (some r) = IsConsistent r.selection

keyed-Kept :
    (codec : CacheCodec) (key : String) (o : Option RuntimeCachedChoice) → Kept (keyed codec key o)
unfolding keyed into_runtime selection
keyed-Kept codec key none = tt
keyed-Kept codec key (some choice) = refl

abbrev pub Fair : Result RuntimeSelection String → Type 0
Fair (ok r) = IsConsistent r.selection
Fair (err reason) = Unit

-- A choice that comes about, and is consistent.
abbrev pub Decided : {A B : Type 0} → Option (Result RuntimeSelection String × A × B) → Type 0
Decided {A} {B} r =
    (answer : Result RuntimeSelection String) × (a : A) × (b : B) × (r ≡ some (answer, a, b))
    × Fair answer

module _ {B : Type 0} (benchmark : BackendCandidate → B → Result ProbeTiming String × B)
    (codec : CacheCodec) (io : CacheIo) (cache_key_of : Machine → String) where
  pub chosen-Decided :
      (forced : Option String) (d : Discovery) (file : Option codec.Bytes) (b : B)
      (r : Option (Result RuntimeSelection String × Option codec.Bytes × B))
      → IsChosen benchmark codec io cache_key_of forced d file b r
      → Decided r
  unfolding read_runtime_cache degraded_runtime cpu_selection selection
  chosen-Decided forced d file b r (bypassed h e) = (_, _, _, e, refl)
  chosen-Decided forced d file b r (refused requested reason h m e) =
      (_, _, _, e, degraded_to_cpu-IsConsistent requested reason)
  chosen-Decided forced d file b r (remembered cached taken h can whole stored (same, place) e) = (
    _,
    _,
    _,
    e,
    subst IsConsistent (sym (ap (λ (r : RuntimeSelection). r.selection) same))
        (subst Kept stored (keyed-Kept codec _ _)),
  )
  chosen-Decided forced d file b r (measured f o t answers chosen file' b' c u n m a best saved e) =
      (_, _, _, e, best-IsConsistent (map as_measured answers) t chosen best)
  chosen-Decided forced d file b r (broken f o reason message c m e) = (_, _, _, e, tt)
