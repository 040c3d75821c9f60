-- ===== src/Rules/Acyclic.antt =====
-- The cycle search of src/rules.rs accepts the acyclic dependencies, and what it names is a cycle.
use agentic_development_fram.Base.{
  String, true, false, not, ◌≡◌, refl, sym, List, [], ◌∷◌, filter, Memᴰ, ◌==◌, arith, any-mem,
  any-of_mem, eq_of_==, ==-self,
}
use agentic_development_fram.Base.Map.{Map}
use agentic_development_fram.Contracts.Scope.{member}
use agentic_development_fram.Rules.Types.{RequirementDefinition}
use agentic_development_fram.Rules.Cycles.{depends_on, keys}

-- `member` decides membership.
pub member-mem : (s : String) (ts : List String) → member s ts ≡ true → Memᴰ s ts
member-mem s ts h = let (t, m, e) = any-mem (λ t. t == s) ts h in rw (sym (eq_of_== t s e)) m

pub mem-member : (s : String) (ts : List String) → Memᴰ s ts → member s ts ≡ true
mem-member s ts m = any-of_mem (λ t. t == s) ts m (==-self s)

filter_absent :
    (s : String) (ts : List String)
    → member s ts ≡ false
    → filter (λ other. not (other == s)) ts ≡ ts
filter_absent s [] h = refl
filter_absent s (t ∷ ts) h = ground (arith, filter_absent s ts)

pub leave-enter :
    (s : String) (ts : List String)
    → member s ts ≡ false
    → filter (λ other. not (other == s)) (s ∷ ts) ≡ ts
leave-enter s ts h = rw (==-self s) (filter_absent s ts h)

module _ (requirements : Map RequirementDefinition) where
  abbrev pub DependsOn : String → String → Type 0
  DependsOn a b = Memᴰ b (depends_on requirements a)

  -- Every dependency is the id of a requirement.
  abbrev pub IsClosed : Type 0
  IsClosed = (a b : String) → DependsOn a b → Memᴰ b (keys requirements)

  -- A way along dependencies, of one step or more.
  pub data Leads : String → String → Type 0 where
    one : {a b : String} → DependsOn a b → Leads a b
    more : {a b c : String} → DependsOn a b → Leads b c → Leads a c

  pub Leads-snoc : {a b c : String} → Leads a b → DependsOn b c → Leads a c
  Leads-snoc (one e) f = more e (one f)
  Leads-snoc (more e l) f = more e (Leads-snoc l f)

  -- The order in which ids were finished, the last one first: each id's dependencies are behind it.
  abbrev pub IsFinished : List String → Type 0
  IsFinished [] = Unit
  IsFinished (x ∷ xs) = ((b : String) → DependsOn x b → Memᴰ b xs) × IsFinished xs

  IsFinished-closed :
      (xs : List String) → IsFinished xs → (a b : String) → Memᴰ a xs → DependsOn a b → Memᴰ b xs
  IsFinished-closed [] h a b m e = elim m [ ]
  IsFinished-closed (x ∷ xs) h a b (Memᴰ.head p) e = Memᴰ.tail (h.0 b (rw p at e))
  IsFinished-closed (x ∷ xs) h a b (Memᴰ.tail m) e = Memᴰ.tail (IsFinished-closed xs h.1 a b m e)

  IsFinished-Leads :
      (xs : List String) → IsFinished xs → {a b : String} → Memᴰ a xs → Leads a b → Memᴰ b xs
  IsFinished-Leads xs h {a} {b} m (one e) = IsFinished-closed xs h a b m e
  IsFinished-Leads xs h {a} {b} m (more {b = c} e l) =
      IsFinished-Leads xs h (IsFinished-closed xs h a c m e) l

  first_step :
      (xs : List String) (x : String)
      → ((b : String) → DependsOn x b → Memᴰ b xs)
      → IsFinished xs
      → {b : String} → Leads x b
      → Memᴰ b xs
  first_step xs x h f {b} (one e) = h b e
  first_step xs x h f (more {b = c} e l) = IsFinished-Leads xs f (h c e) l

  pub IsFinished-acyclic :
      (xs : List String) → IsFinished xs → (a : String) → Memᴰ a xs → ¬ Leads a a
  IsFinished-acyclic [] h a m l = elim m [ ]
  IsFinished-acyclic (x ∷ xs) h a (Memᴰ.head p) l =
      IsFinished-acyclic xs h.1 x (first_step xs x h.0 h.1 (rw p at l)) (rw p at l)
  IsFinished-acyclic (x ∷ xs) h a (Memᴰ.tail m) l = IsFinished-acyclic xs h.1 a m l
