-- ===== src/Utils/Lru/Tests.antt =====
-- A cache of two strings, in which the third use takes the place of the first.
use framer.Base.{◌≡◌, refl, Bytes, List, [], ◌∷◌, some, take, codes}
use framer.Utils.Lru.{Lru, new_lru, get_or_add}
use framer.Utils.Lru.Recency.{recent, after_uses, get_or_add-recent}

abbrev empty : Lru
empty = record { max_size = 2; list = [] }

abbrev uses : List Bytes
uses = codes "b" ∷ codes "a" ∷ codes "b" ∷ []

empty_new : new_lru 2 ≡ some empty
unfolding new_lru
empty_new = refl

left_over : take 2 (recent (codes "c" ∷ uses)) ≡ codes "c" ∷ codes "b" ∷ []
left_over = refl

get_or_add-recent_example :
    get_or_add (after_uses empty uses) (codes "c")
    ≡ (codes "c", record { max_size = 2; list = take 2 (recent (codes "c" ∷ uses)) })
get_or_add-recent_example = get_or_add-recent 2 empty uses (codes "c") empty_new
