-- ===== src/Extensions/Methods/Disjoint.antt =====
-- Where the tables of methods overlap: a method is reached in one way only, but for one.
use codex_acp_v.Extensions.Methods.{
  host_methods, thread_methods, discovery_methods, lifecycle_methods,
}
use codex_acp_v.Common.{
  String, ◌≡◌, List, contains, Bool, Has, all, true, false, refl, not, arith, ◌∷◌, Bool-cases, ◌==◌,
  inl, eq_iff, inr, [], ◌↔◌, ◌||◌,
}

abbrev avoids : List String → List String → Bool
avoids xs ys = all (λ x. not (contains ys x)) xs

not-Has_of_avoids :
    (xs ys : List String) (m : String) → avoids xs ys ≡ true → Has xs m → contains ys m ≡ false
unfolding contains
not-Has_of_avoids [] ys m h k = absurd (ground arith)
not-Has_of_avoids (x ∷ xs) ys m h k = elim (Bool-cases (x == m)) [
  | inl e ↦ let same : x ≡ m = (eq_iff x m).0 e in rw (← same) (ground arith)
  | inr e ↦ not-Has_of_avoids xs ys m (ground arith) (ground arith)
]

-- The one method that is bound to a thread and open to the host alone.
abbrev pub host_gated : String
host_gated = "thread/delete"

shared_with_hosts : List String → Bool
shared_with_hosts xs = all (λ x. not (contains host_methods x) || x == host_gated) xs

eq-host_gated_of_shared :
    (xs : List String) (m : String)
    → shared_with_hosts xs ≡ true
    → Has xs m
    → Has host_methods m
    → m ≡ host_gated
unfolding contains shared_with_hosts
eq-host_gated_of_shared [] m h k l = absurd (ground arith)
eq-host_gated_of_shared (x ∷ xs) m h k l = elim (Bool-cases (x == m)) [
  | inl e ↦ let same : x ≡ m = (eq_iff x m).0 e in ground (arith, eq_iff x host_gated)
  | inr e ↦ eq-host_gated_of_shared xs m (ground arith) (ground arith) l
]

threads_shared : shared_with_hosts thread_methods ≡ true
unfolding thread_methods host_methods contains shared_with_hosts
threads_shared = refl

threads_avoid :
    (avoids thread_methods discovery_methods ≡ true)
    × (avoids thread_methods lifecycle_methods ≡ true)
unfolding thread_methods discovery_methods lifecycle_methods contains
threads_avoid = (refl, refl)

hosts_avoid :
    (avoids host_methods discovery_methods ≡ true) × (avoids host_methods lifecycle_methods ≡ true)
unfolding host_methods discovery_methods lifecycle_methods contains
hosts_avoid = (refl, refl)

discovery_avoids : avoids discovery_methods lifecycle_methods ≡ true
unfolding discovery_methods lifecycle_methods contains
discovery_avoids = refl

host_gated_listed : Has host_methods host_gated
unfolding host_methods contains
host_gated_listed = refl

-- The tables of discovery, host and lifecycle methods share no method, and the thread table shares
-- one with the host table alone: `thread/delete`, which needs an owned thread and host access.
pub tables_disjoint :
    (m : String)
    → (Has thread_methods m
        → (Has host_methods m ↔ (m ≡ host_gated))
          × (contains discovery_methods m ≡ false)
          × (contains lifecycle_methods m ≡ false))
      × (Has host_methods m
          → (contains discovery_methods m ≡ false) × (contains lifecycle_methods m ≡ false))
      × (Has discovery_methods m → contains lifecycle_methods m ≡ false)
tables_disjoint m = (
  (λ h. (
    (eq-host_gated_of_shared thread_methods m threads_shared h, λ e. rw e host_gated_listed),
    not-Has_of_avoids thread_methods discovery_methods m threads_avoid.0 h,
    not-Has_of_avoids thread_methods lifecycle_methods m threads_avoid.1 h,
  )),
  (λ h. (
    not-Has_of_avoids host_methods discovery_methods m hosts_avoid.0 h,
    not-Has_of_avoids host_methods lifecycle_methods m hosts_avoid.1 h,
  )),
  (λ h. not-Has_of_avoids discovery_methods lifecycle_methods m discovery_avoids h),
)
