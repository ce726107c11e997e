-- ===== src/Database/Devices/Found.antt =====
-- The row of a device in its table: `devices` of migrations/001_schema.sql has one row for each uid.
use echoear_cloud.Base.{
  String, Bool, true, false, ◌≡◌, refl, ◌⊎◌, inl, inr, none, some, List, [], ◌∷◌, ◌++◌,
  if◌then◌else◌, arith, find, Bool-cases, All,
}
use echoear_cloud.Database.Rows.{update_where}
use echoear_cloud.Database.Devices.{Device, has_uid}

-- A change that leaves the uid of every row.
abbrev pub KeepsUid : (Device → Device) → Type 0
KeepsUid f = (d : Device) → (f d).device_uid ≡ d.device_uid

module _ (uid : String) (p : Device → Bool) (f : Device → Device) where
  pub find-update_hit :
      (ds : List Device) (d : Device)
      → KeepsUid f
      → find (has_uid uid) ds ≡ some d
      → p d ≡ true
      → find (has_uid uid) (update_where p f ds) ≡ some (f d)
  find-update_hit [] d keeps e h = cc
  find-update_hit (x ∷ ds) d keeps e h =
      go (Bool-cases (has_uid uid x)) (Bool-cases (p x)) (find-update_hit ds d keeps)
    where
      go :
          (has_uid uid x ≡ true) ⊎ (has_uid uid x ≡ false)
          → (p x ≡ true) ⊎ (p x ≡ false)
          → (find (has_uid uid) ds ≡ some d
              → p d ≡ true
              → find (has_uid uid) (update_where p f ds) ≡ some (f d))
          → find (has_uid uid) (update_where p f (x ∷ ds)) ≡ some (f d)
      go (inl here) passes rest =
          let same : x ≡ d = ground arith in rw (same, h) (rw (keeps d) (rw (rw same at here) refl))
      go (inr away) (inl passes) rest = rw passes (rw (keeps x) (rw away (rest (rw away at e) h)))
      go (inr away) (inr misses) rest = rw misses (rw away (rest (rw away at e) h))

  pub find-update_absent :
      (ds : List Device)
      → KeepsUid f
      → find (has_uid uid) ds ≡ none
      → find (has_uid uid) (update_where p f ds) ≡ none
  find-update_absent [] keeps e = refl
  find-update_absent (x ∷ ds) keeps e = ground (arith, keeps x, find-update_absent ds keeps)

  -- A row that the change does not touch is still the one that is found.
  pub find-update_miss :
      (ds : List Device)
      → KeepsUid f
      → ((x : Device) → has_uid uid x ≡ true → p x ≡ false)
      → find (has_uid uid) (update_where p f ds) ≡ find (has_uid uid) ds
  find-update_miss [] keeps h = refl
  find-update_miss (x ∷ ds) keeps h = ground (arith, keeps x, h x, find-update_miss ds keeps h)

-- A test that only rows of the uid pass finds the row of the uid, if that passes.
pub find-narrow :
    (uid : String) (q : Device → Bool) (ds : List Device) (d : Device)
    → ((x : Device) → q x ≡ true → has_uid uid x ≡ true)
    → find (has_uid uid) ds ≡ some d
    → q d ≡ true
    → find q ds ≡ some d
find-narrow uid q [] d within e h = cc
find-narrow uid q (x ∷ ds) d within e h =
    go (Bool-cases (has_uid uid x)) (Bool-cases (q x)) (find-narrow uid q ds d within)
  where
    go :
        (has_uid uid x ≡ true) ⊎ (has_uid uid x ≡ false)
        → (q x ≡ true) ⊎ (q x ≡ false)
        → (find (has_uid uid) ds ≡ some d → q d ≡ true → find q ds ≡ some d)
        → find q (x ∷ ds) ≡ some d
    go (inl here) passes rest = let same : x ≡ d = ground arith in rw (same, h) refl
    go (inr away) (inl passes) rest = cc (within x passes, away)
    go (inr away) (inr misses) rest = rw misses (rest (rw away at e) h)

pub find-append :
    (p : Device → Bool) (ds : List Device) (x : Device)
    → find p ds ≡ none
    → find p (ds ++ x ∷ []) ≡ (if p x then some x else none)
find-append p [] x e = refl
find-append p (y ∷ ds) x e = ground (arith, find-append p ds x)

pub find-append_miss :
    (p : Device → Bool) (ds : List Device) (x : Device)
    → p x ≡ false
    → find p (ds ++ x ∷ []) ≡ find p ds
find-append_miss p [] x e = rw e refl
find-append_miss p (y ∷ ds) x e = ground (arith, find-append_miss p ds x e)

-- A test that no row passed finds the row of the uid, once a change has made that row pass.
pub find-update_new :
    (uid : String) (p q : Device → Bool) (f : Device → Device) (ds : List Device) (d : Device)
    → ((x : Device) → p x ≡ true → has_uid uid x ≡ true)
    → All (λ x. q x ≡ false) ds
    → find (has_uid uid) ds ≡ some d
    → p d ≡ true
    → q (f d) ≡ true
    → find q (update_where p f ds) ≡ some (f d)
find-update_new uid p q f [] d within none_before e h k = cc
find-update_new uid p q f (x ∷ ds) d within (off, none_before) e h k =
    go (Bool-cases (has_uid uid x)) (find-update_new uid p q f ds d within none_before)
  where
    go :
        (has_uid uid x ≡ true) ⊎ (has_uid uid x ≡ false)
        → (find (has_uid uid) ds ≡ some d
            → p d ≡ true
            → q (f d) ≡ true
            → find q (update_where p f ds) ≡ some (f d))
        → find q (update_where p f (x ∷ ds)) ≡ some (f d)
    go (inl here) rest = let same : x ≡ d = ground arith in rw (same, h) (rw k refl)
    go (inr away) rest =
        let misses : p x ≡ false = ground (arith, within x, away) in
        rw misses (rw off (rest (rw away at e) h k))
