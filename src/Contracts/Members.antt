-- ===== src/Contracts/Members.antt =====
-- Membership as a test and as a fact.
use agentic_development_fram.Base.{
  String, true, List, ◌≡◌, subst, Memᴰ, any-mem, any-of_mem, eq_of_==, ==-self, ◌==◌,
}
use agentic_development_fram.Contracts.Scope.{member}

pub member-mem : (s : String) (ss : List String) → member s ss ≡ true → Memᴰ s ss
member-mem s ss h =
    let (t, m, e) = any-mem (λ t. t == s) ss h in subst (λ x. Memᴰ x ss) (eq_of_== t s e) m

pub mem-member : (s : String) (ss : List String) → Memᴰ s ss → member s ss ≡ true
mem-member s ss m = any-of_mem (λ t. t == s) ss m (==-self s)
