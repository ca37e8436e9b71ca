-- ===== src/Services/Lines.antt =====
-- Files of lines.
use rdpg_boshrelease.Base.{String, ◌<>◌, ◌≡◌, refl, List, [], ◌∷◌, ◌++◌, join}

-- each line with its end
unfoldable pub lines : List String → String
lines [] = ""
lines (x ∷ xs) = x <> "\n" <> lines xs

-- With an empty line behind the others, what `strings.Join` makes ends each of them.
pub join-lines :
    (x : String) (xs : List String) → join "\n" ((x ∷ xs) ++ ("" ∷ [])) ≡ lines (x ∷ xs)
unfolding join lines
join-lines x [] = refl
join-lines x (y ∷ ys) = rw (join-lines y ys)
