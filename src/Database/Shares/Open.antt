-- ===== src/Database/Shares/Open.antt =====
-- The open shares of internal/database/access_repository.go: `agent_shares_open_unique` of
-- migrations/004_user_management_agent_sharing.sql over the operations that write shares.
use echoear_cloud.Base.{
  String, eq_iff, refl, All-append, ℕ, Bool, true, false, ◌≡◌, ◌⊎◌, inl, inr, List, [], ◌∷◌, ◌++◌,
  arith, select, any, All, Bool-cases, if-cases,
}
use echoear_cloud.Database.Rows.{Share, update_where}
use echoear_cloud.Database.Users.{is_open}
use echoear_cloud.Database.Shares.{occupies, has_share_id}

-- The share keeps clear of those in a list: none of them is open for the same agent and grantee.
abbrev pub IsClear : Share → List Share → Type 0
IsClear s rs =
    is_open s.status ≡ true → All (λ r. occupies s.agent_id s.grantee_user_id r ≡ false) rs

-- At most one open share of an agent with a grantee.
abbrev pub UniqueOpen : List Share → Type 0
UniqueOpen [] = Unit
UniqueOpen (s ∷ ss) = IsClear s ss × UniqueOpen ss

-- The primary key.
abbrev pub UniqueShareIds : List Share → Type 0
UniqueShareIds [] = Unit
UniqueShareIds (s ∷ ss) = All (λ r. has_share_id s.id r ≡ false) ss × UniqueShareIds ss

All-append_one :
    (a g : ℕ) (rs : List Share) (new : Share)
    → All (λ r. occupies a g r ≡ false) rs
    → occupies a g new ≡ false
    → All (λ r. occupies a g r ≡ false) (rs ++ new ∷ [])
All-append_one a g [] new h k = (k, tt)
All-append_one a g (r ∷ rs) new (p, h) k = (p, All-append_one a g rs new h k)

pub UniqueOpen-append :
    (ss : List Share) (new : Share)
    → UniqueOpen ss
    → any (occupies new.agent_id new.grantee_user_id) ss ≡ false
    → UniqueOpen (ss ++ new ∷ [])
UniqueOpen-append [] new u free = (λ h. tt, tt)
UniqueOpen-append (s ∷ ss) new (clear, u) free = (
  λ h. All-append_one s.agent_id s.grantee_user_id ss new (clear h) (ground (arith, h)),
  UniqueOpen-append ss new u (ground arith),
)

All-select :
    (a g : ℕ) (p : Share → Bool) (rs : List Share)
    → All (λ r. occupies a g r ≡ false) rs
    → All (λ r. occupies a g r ≡ false) (select p rs)
All-select a g p [] h = tt
All-select a g p (r ∷ rs) (q, h) =
    if-cases (λ xs. All (λ x. occupies a g x ≡ false) xs) (p r) _ _
      (λ kept. (q, All-select a g p rs h)) (λ gone. All-select a g p rs h)

pub UniqueOpen-select :
    (p : Share → Bool) (ss : List Share) → UniqueOpen ss → UniqueOpen (select p ss)
UniqueOpen-select p [] u = tt
UniqueOpen-select p (s ∷ ss) (clear, u) =
    if-cases UniqueOpen (p s) _ _
      (λ kept.
        (λ h. All-select s.agent_id s.grantee_user_id p ss (clear h), UniqueOpen-select p ss u))
      (λ gone. UniqueOpen-select p ss u)

-- A change that opens nothing and moves no share to another agent or grantee.
abbrev pub OpensNothing : Share → Share → Type 0
OpensNothing s s' =
    (s'.agent_id ≡ s.agent_id)
    × (s'.grantee_user_id ≡ s.grantee_user_id)
    × (is_open s'.status ≡ true → is_open s.status ≡ true)

module _ (p : Share → Bool) (f : Share → Share) where
  All-update :
      (a g : ℕ) (rs : List Share)
      → All (λ r. p r ≡ true → OpensNothing r (f r)) rs
      → All (λ r. occupies a g r ≡ false) rs
      → All (λ r. occupies a g r ≡ false) (update_where p f rs)
  All-update a g [] o h = tt
  All-update a g (r ∷ rs) (q, o) (k, h) = (
    if-cases (λ x. occupies a g x ≡ false) (p r) _ _
        (λ hit. still (q hit) (Bool-cases (is_open (f r).status))) (λ miss. k),
    All-update a g rs o h,
  )
    where
      still :
          OpensNothing r (f r)
          → (is_open (f r).status ≡ true) ⊎ (is_open (f r).status ≡ false)
          → occupies a g (f r) ≡ false
      still (same_agent, same_grantee, opens) (inl open_after) =
          rw (same_agent, same_grantee, open_after) (rw (opens open_after) at k)
      still (same_agent, same_grantee, opens) (inr shut) = rw shut (ground arith)

  pub UniqueOpen-update :
      (ss : List Share)
      → All (λ r. p r ≡ true → OpensNothing r (f r)) ss
      → UniqueOpen ss
      → UniqueOpen (update_where p f ss)
  UniqueOpen-update [] o u = tt
  UniqueOpen-update (s ∷ ss) (q, o) (clear, u) = (
    if-cases (λ x. IsClear x (update_where p f ss)) (p s) _ _ (λ hit h. moved (q hit) h)
        (λ miss h. All-update s.agent_id s.grantee_user_id ss o (clear h)),
    UniqueOpen-update ss o u,
  )
    where
      moved :
          OpensNothing s (f s)
          → is_open (f s).status ≡ true
          → All (λ r. occupies (f s).agent_id (f s).grantee_user_id r ≡ false) (update_where p f ss)
      moved (same_agent, same_grantee, opens) h =
          rw (same_agent, same_grantee)
            (All-update s.agent_id s.grantee_user_id ss o (clear (opens h)))

All-ids :
    (id : String) (p : Share → Bool) (rs : List Share)
    → All (λ r. has_share_id id r ≡ false) rs
    → All (λ r. has_share_id id r ≡ false) (select p rs)
All-ids id p [] h = tt
All-ids id p (r ∷ rs) (q, h) =
    if-cases (λ xs. All (λ x. has_share_id id x ≡ false) xs) (p r) _ _
      (λ kept. (q, All-ids id p rs h)) (λ gone. All-ids id p rs h)

pub UniqueShareIds-select :
    (p : Share → Bool) (ss : List Share) → UniqueShareIds ss → UniqueShareIds (select p ss)
UniqueShareIds-select p [] u = tt
UniqueShareIds-select p (s ∷ ss) (fresh, u) =
    if-cases UniqueShareIds (p s) _ _
      (λ kept. (All-ids s.id p ss fresh, UniqueShareIds-select p ss u))
      (λ gone. UniqueShareIds-select p ss u)

pub any-select :
    (p q : Share → Bool) (ss : List Share) → any q ss ≡ false → any q (select p ss) ≡ false
any-select p q [] h = refl
any-select p q (s ∷ ss) h =
    if-cases (λ xs. any q xs ≡ false) (p s) (s ∷ select p ss) (select p ss)
      (λ kept. ground (arith, h, any-select p q ss)) (λ gone. any-select p q ss (ground (arith, h)))

pub UniqueShareIds-append :
    (ss : List Share) (new : Share)
    → UniqueShareIds ss
    → any (has_share_id new.id) ss ≡ false
    → UniqueShareIds (ss ++ new ∷ [])
UniqueShareIds-append [] new u free = (tt, tt)
UniqueShareIds-append (s ∷ ss) new (fresh, u) free = (
  All-append (λ r. has_share_id s.id r ≡ false) ss (new ∷ []) fresh
      (ground (arith, free, eq_iff s.id new.id, eq_iff new.id s.id), tt),
  UniqueShareIds-append ss new u (ground (arith, free)),
)

-- A change that keeps the ids of the rows it changes.
module _ (p : Share → Bool) (f : Share → Share) where
  All-same_ids :
      (id : String) (rs : List Share)
      → All (λ r. p r ≡ true → (f r).id ≡ r.id) rs
      → All (λ r. has_share_id id r ≡ false) rs
      → All (λ r. has_share_id id r ≡ false) (update_where p f rs)
  All-same_ids id [] o h = tt
  All-same_ids id (r ∷ rs) (q, o) (k, h) = (
    if-cases (λ x. has_share_id id x ≡ false) (p r) (f r) r (λ hit. rw (q hit) k) (λ miss. k),
    All-same_ids id rs o h,
  )

  pub UniqueShareIds-update :
      (ss : List Share)
      → All (λ r. p r ≡ true → (f r).id ≡ r.id) ss
      → UniqueShareIds ss
      → UniqueShareIds (update_where p f ss)
  UniqueShareIds-update [] o u = tt
  UniqueShareIds-update (s ∷ ss) (q, o) (fresh, u) = (
    if-cases (λ x. All (λ r. has_share_id x.id r ≡ false) (update_where p f ss)) (p s) (f s) s
        (λ hit. rw (q hit) (All-same_ids s.id ss o fresh)) (λ miss. All-same_ids s.id ss o fresh),
    UniqueShareIds-update ss o u,
  )
