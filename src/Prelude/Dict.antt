-- ===== src/Prelude/Dict.antt =====
-- Python's `dict` with text keys, as the function of its lookups: the source never goes through the
-- keys of the dictionaries that are modelled so.
use Prim.Native.String.{String}
use mathlib.Core.Option.{Option, none, some}
use text.Mathlib.Text.{◌==◌}
use mec_measurements.Prelude.Tests.{if◌then◌else◌}

abbrev pub Dict {ℓ} : Type ℓ → Type ℓ
Dict V = String → Option V

module _ {ℓ} {V : Type ℓ} where
  abbrev pub empty : Dict V
  empty k = none

  -- d[k] = v
  abbrev pub put : Dict V → String → V → Dict V
  put d k v j = if k == j then some v else d j

  -- del(d[k]) under the test that the key is there
  abbrev pub remove : Dict V → String → Dict V
  remove d k j = if k == j then none else d j
