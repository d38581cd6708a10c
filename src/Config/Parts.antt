-- ===== src/Config/Parts.antt =====
-- Lists of texts in one variable, between semicolons (sonya-meta/src/config.rs).
use web_queue.Common.{Bytes, List, [], ◌∷◌, ◌++◌, Bool, true, not, ◌&&◌, ◌==◌, ◌≡◌, refl, arith}
use web_queue.Config.Env.{split, is_empty, parts}

abbrev pub no_semicolon : Bytes → Bool
no_semicolon [] = true
no_semicolon (c ∷ cs) = not (c == b';') && no_semicolon cs

-- Not empty, and without a semicolon.
abbrev pub is_part : Bytes → Bool
is_part w = not (is_empty w) && no_semicolon w

abbrev pub AllParts : List Bytes → Type 0
AllParts [] = Unit
AllParts (w ∷ ws) = (is_part w ≡ true) × AllParts ws

-- The texts with a semicolon between each two.
abbrev pub join : List Bytes → Bytes
join [] = []
join (w ∷ []) = w
join (w ∷ v ∷ ws) = w ++ (b';' ∷ join (v ∷ ws))

split-part : (w rest : Bytes) → no_semicolon w ≡ true → split (w ++ (b';' ∷ rest)) ≡ w ∷ split rest
unfolding split
split-part [] rest h = refl
split-part (c ∷ w) rest h = ground (arith, h, split-part w rest (ground (arith, h)))

split-last : (w : Bytes) → no_semicolon w ≡ true → split w ≡ w ∷ []
unfolding split
split-last [] h = refl
split-last (c ∷ w) h = ground (arith, h, split-last w (ground (arith, h)))

-- What is joined is split into its parts.
pub parts-join : (ws : List Bytes) → AllParts ws → parts (join ws) ≡ ws
unfolding is_empty split
parts-join [] h = refl
parts-join (w ∷ []) h = ground (arith, h.0, split-last w (ground (arith, h.0)))
parts-join (w ∷ v ∷ ws) h =
    ground (arith, h.0, split-part w (join (v ∷ ws)) (ground (arith, h.0)), parts-join (v ∷ ws) h.1)
