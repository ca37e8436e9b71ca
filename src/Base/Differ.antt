-- ===== src/Base/Differ.antt =====
-- Texts that the test on strings tells apart.
use Prim.Native.String.{String}
use mathlib.Core.Path.{◌≡◌, sym, ◌∙◌}
use mathlib.Core.Logic.{◌≢◌}
use mathlib.Core.Bool.{false, false≢true}
use text.Mathlib.TextEquality.{eq_iff}
use rdpg_boshrelease.Base.Tests.{◌==◌}

pub ne_of_test : (a b : String) → a == b ≡ false → a ≢ b
ne_of_test a b test same = false≢true (sym test ∙ (eq_iff a b).1 same)
