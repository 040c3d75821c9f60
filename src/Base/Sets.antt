-- ===== src/Base/Sets.antt =====
-- `BTreeSet<String>`: the members of a list, in their order and each once.
use Prim.Native.String.{String}
use mathlib.Core.Path.{◌≡◌, refl, sym, ap, ◌∙◌, subst}
use mathlib.Core.Logic.{inl, inr}
use mathlib.Core.List.{List, [], ◌∷◌, Memᴰ}
use mathlib.Core.List.Memᴰ
use mathlib.Core.Option.{some}
use agentic_development_fram.Base.Bools.{Bool-cases}
use agentic_development_fram.Base.Texts.{◌==◌, ==-self}
use agentic_development_fram.Base.Map
use agentic_development_fram.Base.Map.{Map}
use agentic_development_fram.Base.Map.Ascending.{keys_of, IsAscending, insert-IsAscending}
use agentic_development_fram.Base.Members.{mem-map, map-mem}

unfoldable pub set_map : List String → Map (Unit {0})
set_map [] = []
set_map (s ∷ ss) = Map.insert s tt (set_map ss)

abbrev pub set_of : List String → List String
set_of ss = keys_of (set_map ss)

set_map-get : (s : String) (ss : List String) → Memᴰ s ss → Map.get s (set_map ss) ≡ some tt
unfolding set_map
set_map-get s [] m = elim m [ ]
set_map-get s (t ∷ ss) m = elim (Bool-cases (t == s)) [
  | inl e ↦ rw (Map.get-insert t s tt (set_map ss)) (rw e refl)
  | inr e ↦ rw (Map.get-insert t s tt (set_map ss)) (
      rw e (elim (Memᴰ.cases_cons m) [
        | inl q ↦ cc (rw q at e, ==-self t)
        | inr n ↦ set_map-get s ss n
      ]))
]

pub mem-set_of : (s : String) (ss : List String) → Memᴰ s ss → Memᴰ s (set_of ss)
mem-set_of s ss m = (Map.get-mem s (set_map ss) (set_map-get s ss m)).1

pub set_of-mem : (s : String) (ss : List String) → Memᴰ s (set_of ss) → Memᴰ s ss
unfolding set_map
set_of-mem s [] m = elim m [ ]
set_of-mem s (t ∷ ss) m =
    let (entry, n, e) = mem-map (λ (x : String × Unit {0}). x.0) (Map.insert t tt (set_map ss)) m in
    elim (Map.mem-insert t tt (set_map ss) n) [
      | inl q ↦ Memᴰ.head (sym e ∙ ap (λ (x : String × Unit {0}). x.0) q)
      | inr o ↦ Memᴰ.tail (
          set_of-mem s ss (
            subst (λ k. Memᴰ k (set_of ss)) e
              (map-mem (λ (x : String × Unit {0}). x.0) (set_map ss) o)))
    ]

pub set_of-IsAscending : (ss : List String) → IsAscending (set_of ss)
unfolding set_map
set_of-IsAscending [] = tt
set_of-IsAscending (s ∷ ss) = insert-IsAscending s tt (set_map ss) (set_of-IsAscending ss)

pub set_of-nil : (ss : List String) → set_of ss ≡ [] → ss ≡ []
set_of-nil [] e = refl
set_of-nil (s ∷ ss) e = elim (rw e at (mem-set_of s (s ∷ ss) (Memᴰ.head refl))) [ ]
