-- ===== src/Database/Shares/Terms.antt =====
-- The policy of a share, and its row, after `CreateShare` and `TransitionShare` of
-- internal/database/access_repository.go.
use mathlib.Core.Path.{subst}
use echoear_cloud.Base.{
  ℕ, String, len, Bool, ◌≡◌, refl, Option, none, some, not, any, find, if◌then◌else◌, ◌==◌, arith,
  select, ◌+◌, ◌^◌, ltb, In, first, later, List, [], ◌∷◌, ◌++◌, sym, ap, In-append_right,
  Bool-cases, inl, inr,
}
use echoear_cloud.Database.Rows.{
  Result, ok, no_rows, cannot_share_with_owner, check_violation, open_share_exists, out_of_range,
  Share, Db, json_or_empty, guard-eq_ok, or_fail-eq_ok, update_where,
}
use echoear_cloud.Database.Shares.{
  Change, update, given_or, valid_period, occupies, orphan, new_share, insert_share, create_share,
  set_terms, write_row, transition_share, has_share_id,
}
use echoear_cloud.Database.Shares.Status.{transition_share-Done}

insert_share-row :
    (now : ℕ) (db db' : Db) (new s : Share)
    → insert_share now db new ≡ ok (db', s)
    → (s ≡ new) × In s db'.shares
unfolding insert_share
insert_share-row now db db' new s e =
    let (valid, rest) =
      guard-eq_ok (valid_period new.valid_from new.valid_until) check_violation _ e in
    let (free, end) =
      guard-eq_ok (not (any (occupies new.agent_id new.grantee_user_id) db.shares))
        open_share_exists _ rest in
    let same : s ≡ new = ground arith in
    let rows : db.shares ++ new ∷ [] ≡ db'.shares = ground arith in
    (same, subst (In s) rows (In-append_right s db.shares (new ∷ []) (first (sym same))))

pub create_share-policy :
    (lower : String → String) (decode : String → Option String) (clock now : ℕ) (id : String)
    (db db' : Db) (owner : ℕ) (public_id grantee : String) (from until : Option ℕ) (policy : String)
    (s : Share)
    → create_share lower decode clock now id db owner public_id grantee from until policy
      ≡ ok (db', s)
    → (s.policy ≡ json_or_empty decode policy) × In s db'.shares
unfolding create_share new_share
create_share-policy lower decode clock now id db db' owner public_id grantee from until policy s e =
    let (agent, a, rest) = or_fail-eq_ok (find _ db.agents) no_rows _ e in
    let (user, b, rest') = or_fail-eq_ok (find _ db.users) no_rows _ rest in
    let (other, rest'') = guard-eq_ok (not (user.id == owner)) cannot_share_with_owner _ rest' in
    let (same, stored) =
      insert_share-row now
        (record db { shares = select (λ r. not (orphan db agent.id user.id r)) db.shares }) db'
        (new_share now id agent.id owner user.id (elim from [ none ↦ clock | some t ↦ t ]) until
          (json_or_empty decode policy))
        s rest'' in
    (ap (λ (r : Share). r.policy) same, stored)

-- The row that replaces a found one is in the table.
In-replaced :
    (p : Share → Bool) (s row : Share) (ss : List Share)
    → find p ss ≡ some row
    → In s (update_where p (λ old. s) ss)
In-replaced p s row [] e = cc
In-replaced p s row (x ∷ ss) e = elim (Bool-cases (p x)) [
  | inl hit ↦ rw hit (first refl)
  | inr miss ↦ later (In-replaced p s row ss (rw miss at e))
]

pub transition_share-policy :
    (decode : String → Option String) (now : ℕ) (db db' : Db) (actor : ℕ) (id : String) (c : Change)
    (admin : Bool) (s : Share)
    → transition_share decode now db actor id update c admin ≡ ok (db', s)
    → (s.policy ≡ json_or_empty decode (if len c.policy == 0 then "{}" else c.policy))
      × In s db'.shares
unfolding write_row set_terms
transition_share-policy decode now db db' actor id c admin s e =
    let d = transition_share-Done decode now db db' actor id update c admin s e in
    let (small, rest) =
      guard-eq_ok (ltb (d.row.policy_version + 1) (2 ^ 31)) out_of_range _ d.wrote in
    let (valid, end) =
      guard-eq_ok (valid_period (given_or c.valid_from d.row.valid_from) c.valid_until)
        check_violation _ rest in
    let wrote : ◌≡◌ {A = Result Share} (ok (set_terms decode now c d.row)) (ok s) = end in
    let same : set_terms decode now c d.row ≡ s = ground arith in
    (
      ap (λ (r : Share). r.policy) (sym same),
      subst (In s) (sym d.shares) (In-replaced (has_share_id id) s d.row db.shares d.found),
    )
