-- ===== src/Delivery/Inventory/Walk.antt =====
-- The walk over the files of a release (`collect_release_files` of src/delivery.rs).
use mathlib.Core.List.Memᴰ
use agentic_development_fram.Base.{
  String, some, List, [], ◌∷◌, ◌++◌, ◌≡◌, ◌≢◌, refl, sym, ◌∙◌, ap, subst, ◌⊎◌, inl, inr, Memᴰ, ◌==◌,
  ◌<>◌, map, Result, Returns, Returns-bind, Returns-ok, returns, if◌then◌else◌, Bool-cases,
  eq_of_==, ==-self, arith, eq_iff,
}
use agentic_development_fram.Base.Map
use agentic_development_fram.Base.Map.{Map}
use agentic_development_fram.Schema.Validate.Conforms.{IsDistinct}
use agentic_development_fram.Delivery.Inventory.{
  Entry, file, directory, symlink, special, unreadable, Entries, end, entry, replace_backslashes,
  Files, visit, visit_entry,
}

-- The files of a directory, each with its path below the root as the check reads it.
abbrev mutual
  pub files_of : String → Entries → List (String × Result String String)
  files_of prefix end = []
  files_of prefix (entry name e rest) = entry_files (prefix <> name) e ++ files_of prefix rest

  pub entry_files : String → Entry → List (String × Result String String)
  entry_files path (file digest) = (replace_backslashes path, digest) ∷ []
  entry_files path (directory entries) = files_of (path <> "/") entries
  entry_files path symlink = []
  entry_files path special = []
  entry_files path (unreadable error) = []

abbrev pub release_files : Entries → List (String × Result String String)
release_files root = files_of "" root

pub put : Files → String × Result String String → Files
put output (path, digest) = if path == "release.yaml" then output else Map.insert path digest output

pub put_all : Files → List (String × Result String String) → Files
put_all output [] = output
put_all output (f ∷ fs) = put_all (put output f) fs

put_all-append :
    (output : Files) (fs gs : List (String × Result String String))
    → put_all output (fs ++ gs) ≡ put_all (put_all output fs) gs
unfolding put_all
put_all-append output [] gs = refl
put_all-append output (f ∷ fs) gs = put_all-append (put output f) fs gs

mutual
  unfolding visit put_all put

  pub visit-files :
      (prefix : String) (entries : Entries) (output : Files)
      → Returns
          (λ out. out ≡ put_all output (files_of prefix entries))
          (visit prefix entries output)
  visit-files prefix end output = returns refl
  visit-files prefix (entry name e rest) output =
      Returns-bind (visit_entry (prefix <> name) e output) _ λ visited q.
        let first = Returns-ok _ (entry-files (prefix <> name) e output) q in
        subst (λ m. Returns (λ out. out ≡ m) (visit prefix rest visited))
          (ap (λ m. put_all m (files_of prefix rest)) first
            ∙ sym (put_all-append output (entry_files (prefix <> name) e) (files_of prefix rest)))
          (visit-files prefix rest visited)

  entry-files :
      (path : String) (e : Entry) (output : Files)
      → Returns (λ out. out ≡ put_all output (entry_files path e)) (visit_entry path e output)
  entry-files path (file digest) output = returns refl
  entry-files path (directory entries) output = visit-files (path <> "/") entries output
  entry-files path symlink output = Returns.fails
  entry-files path special output = Returns.fails
  entry-files path (unreadable error) output = Returns.fails

abbrev pub paths_of : List (String × Result String String) → List String
paths_of fs = map (λ (f : String × Result String String). f.0) fs

put-get :
    (output : Files) (f : String × Result String String) (k : String)
    → f.0 ≢ k
    → Map.get k (put output f) ≡ Map.get k output
unfolding put
put-get output (path, digest) k n = elim (Bool-cases (path == "release.yaml")) [
  | inl e ↦ rw e refl
  | inr e ↦ rw e (ground (arith, Map.get-insert path k digest output, eq_iff path k, n))
]

put_all-other :
    (output : Files) (fs : List (String × Result String String)) (k : String)
    → ¬ Memᴰ k (paths_of fs)
    → Map.get k (put_all output fs) ≡ Map.get k output
unfolding put_all
put_all-other output [] k n = refl
put_all-other output (f ∷ fs) k n =
    put_all-other (put output f) fs k (λ m. n (Memᴰ.tail m))
    ∙ put-get output f k (λ e. n (Memᴰ.head (sym e)))

pub put_all-get :
    (output : Files) (fs : List (String × Result String String)) (k : String)
    (d : Result String String)
    → IsDistinct (paths_of fs)
    → Memᴰ (k, d) fs
    → k ≢ "release.yaml"
    → Map.get k (put_all output fs) ≡ some d
unfolding put_all put
put_all-get output [] k d distinct m n = elim m [ ]
put_all-get output (f ∷ fs) k d distinct m n = elim (Memᴰ.cases_cons m) [
  | inl q ↦
      put_all-other (put output f) fs k (λ o.
        distinct.0
          (subst (λ x. Memᴰ x (paths_of fs)) (ap (λ (f : String × Result String String). f.0) q) o))
      ∙ placed f q
  | inr t ↦ put_all-get (put output f) fs k d distinct.1 t n
]
  where
    placed : (f : String × Result String String) → (k, d) ≡ f → Map.get k (put output f) ≡ some d
    placed f q =
        subst (λ (f : String × Result String String). Map.get k (put output f) ≡ some d) q
          (elim (Bool-cases (k == "release.yaml")) [
            | inl e ↦ absurd (n (eq_of_== k "release.yaml" e))
            | inr e ↦ rw e (ground (arith, Map.get-insert k k d output, ==-self k))
          ])

pub put_all-mem :
    (output : Files) (fs : List (String × Result String String)) (k : String)
    (d : Result String String)
    → Map.get k (put_all output fs) ≡ some d
    → Memᴰ (k, d) fs ⊎ (Map.get k output ≡ some d)
unfolding put_all put
put_all-mem output [] k d h = inr h
put_all-mem output (f ∷ fs) k d h = elim (put_all-mem (put output f) fs k d h) [
  | inl m ↦ inl (Memᴰ.tail m)
  | inr g ↦ elim (put_found f g) [ inl q ↦ inl (Memᴰ.head q) | inr o ↦ inr o ]
]
  where
    put_found :
        (f : String × Result String String)
        → Map.get k (put output f) ≡ some d
        → ((k, d) ≡ f) ⊎ (Map.get k output ≡ some d)
    put_found (path, digest) g = elim (Bool-cases (path == "release.yaml")) [
      | inl e ↦ inr (rw e at g)
      | inr e ↦ elim (Map.insert-found path k digest output (rw e at g)) [
        | inl (p, q) ↦ inl (rw (p, q) refl)
        | inr o ↦ inr o
      ]
    ]
