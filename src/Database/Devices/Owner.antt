-- ===== src/Database/Devices/Owner.antt =====
-- `BindDevice` of internal/database/repository.go: whose a device is.
use echoear_cloud.Base.{
  ℕ, String, Bool, true, false, ◌≡◌, ◌≢◌, refl, ◌⊎◌, inl, inr, Option, none, some, List, [], ◌∷◌,
  ◌++◌, not, if◌then◌else◌, arith, find, eq_iff, Bool-cases, is_empty, ap, ◌∙◌, find-In,
}
use mathlib.Core.Path.{subst}
use text.Mathlib.TextPositions.{eq_refl}
use echoear_cloud.Database.Rows.{ok, device_uid_required, guard-eq_ok, bind-eq_ok, update_where}
use echoear_cloud.Database.Devices.{
  Device, DeviceInput, has_uid, is_revoked, nullable_ip, normalize_uid, excluded, rebind, upsert,
  Bound, bound, conflict, is_taken, bind_row, bind_device,
}
use echoear_cloud.Database.Devices.Found.{
  KeepsUid, find-update_hit, find-update_miss, find-append, find-append_miss,
}

rebind-KeepsUid : (now : ℕ) (new : Device) → KeepsUid (rebind now new)
unfolding rebind
rebind-KeepsUid now new d = refl

-- A device is bound: its row is there, active, of the user; before, there was none, or it was the
-- user's, or it was revoked; and no other device changes.
pub record IsBound (ds ds' : List Device) (user : ℕ) (uid : String) (d : Device) : Type 0 where
  pub found : find (has_uid uid) ds' ≡ some d
  pub of_user : d.user_id ≡ user
  pub active : d.bind_state ≡ "active"
  pub free :
      (old : Device)
      → find (has_uid uid) ds ≡ some old
      → (old.user_id ≡ user) ⊎ (is_revoked old ≡ true)
  pub others : (other : String) → other ≢ uid → find (has_uid other) ds' ≡ find (has_uid other) ds

pub bind_row-IsBound :
    (now : ℕ) (ds ds' : List Device) (user : ℕ) (new d : Device)
    → new.user_id ≡ user
    → new.bind_state ≡ "active"
    → bind_row now ds user new ≡ bound ds' d
    → IsBound ds ds' user new.device_uid d
unfolding bind_row
bind_row-IsBound now ds ds' user new d mine live e = go (find (has_uid new.device_uid) ds) refl
  where
    go :
        (old : Option Device)
        → find (has_uid new.device_uid) ds ≡ old
        → IsBound ds ds' user new.device_uid d
    go none o =
        let e' : bound (ds ++ new ∷ []) new ≡ bound ds' d =
          rw (o, bind_row, upsert, if◌then◌else◌) at e in
        let at_end : ds ++ new ∷ [] ≡ ds' = ground arith in
        let same : new ≡ d = ground arith in
        record {
          found =
              rw (← at_end, ← same) (find-append (has_uid new.device_uid) ds new o ∙ simp eq_refl);
          of_user = rw (← same) mine;
          active = rw (← same) live;
          free = λ old h. cc;
          others = λ other ne. rw (← at_end) (
              find-append_miss (has_uid other) ds new
                (ground (arith, eq_iff new.device_uid other)));
        }
    go (some old) o = kept (Bool-cases (is_taken user (some old)))
      where
        kept :
            (is_taken user (some old) ≡ true) ⊎ (is_taken user (some old) ≡ false)
            → IsBound ds ds' user new.device_uid d
        kept (inl taken) = cc (rw (o, bind_row, upsert, taken, if◌then◌else◌) at e)
        kept (inr free) =
            let e' : bound (update_where (has_uid new.device_uid) (rebind now new) ds)
                  (rebind now new old)
                ≡ bound ds' d =
              rw (o, bind_row, upsert, free, if◌then◌else◌) at e in
            let rows : update_where (has_uid new.device_uid) (rebind now new) ds ≡ ds' =
              ground arith in
            let same : rebind now new old ≡ d = ground arith in
            record {
              found =
                  rw (← rows, ← same)
                    (find-update_hit new.device_uid (has_uid new.device_uid) (rebind now new) ds old
                      (rebind-KeepsUid now new) o (find-In (has_uid new.device_uid) ds o).1);
              of_user = rw (← same, rebind) mine;
              active = rw (← same, rebind) refl;
              free = λ other h.
                  let one : old ≡ other = ground (arith, h, o) in
                  subst (λ (x : Device). (x.user_id ≡ user) ⊎ (is_revoked x ≡ true)) one
                    (owner_or_revoked (is_revoked old) refl free);
              others = λ other ne. rw (← rows) (
                  find-update_miss other (has_uid new.device_uid) (rebind now new) ds
                    (rebind-KeepsUid now new)
                    (λ x h.
                      ground
                        (arith, eq_iff x.device_uid other, eq_iff x.device_uid new.device_uid)));
            }
          where
            owner_or_revoked :
                (b : Bool)
                → is_revoked old ≡ b
                → is_taken user (some old) ≡ false
                → (old.user_id ≡ user) ⊎ (is_revoked old ≡ true)
            owner_or_revoked true r t = inr r
            owner_or_revoked false r t = inl (ground (arith, r, t))

bind_row-taken :
    (now : ℕ) (ds : List Device) (user : ℕ) (new old : Device)
    → find (has_uid new.device_uid) ds ≡ some old
    → old.user_id ≢ user
    → is_revoked old ≡ false
    → bind_row now ds user new ≡ conflict
unfolding bind_row
bind_row-taken now ds user new old found other live =
    let taken : is_taken user (some old) ≡ true = ground arith in rw (found, taken) refl

pub bind_device-row :
    (upper hash : String → String) (parse_ip : String → Bool) (decode : String → Option String)
    (now id : ℕ) (ds : List Device) (user : ℕ) (input : DeviceInput) (b : Bound)
    → bind_device upper hash parse_ip decode now id ds user input ≡ ok b
    → (ip : Option String) × (bind_row now ds user
          (excluded hash decode now id user (normalize_uid upper input.device_uid) ip input)
        ≡ b)
unfolding bind_device
bind_device-row upper hash parse_ip decode now id ds user input b e =
    let (named, rest) =
      guard-eq_ok (not (is_empty (normalize_uid upper input.device_uid))) device_uid_required _ e in
    let (ip, i, end) = bind-eq_ok (nullable_ip parse_ip input.last_ip) _ rest in (ip, ground arith)

-- A device that another user has bound and not revoked is never taken over: a call whose uid is not
-- empty and whose address is accepted reports the conflict.
pub bind_device-conflict :
    (upper hash : String → String) (parse_ip : String → Bool) (decode : String → Option String)
    (now id : ℕ) (ds : List Device) (user : ℕ) (input : DeviceInput) (old : Device)
    (ip : Option String)
    → is_empty (normalize_uid upper input.device_uid) ≡ false
    → nullable_ip parse_ip input.last_ip ≡ ok ip
    → find (has_uid (normalize_uid upper input.device_uid)) ds ≡ some old
    → old.user_id ≢ user
    → is_revoked old ≡ false
    → bind_device upper hash parse_ip decode now id ds user input ≡ ok conflict
unfolding bind_device excluded
bind_device-conflict upper hash parse_ip decode now id ds user input old ip named accepted found
      other live =
    rw (named, accepted)
      (ap ok (
        bind_row-taken now ds user
          (excluded hash decode now id user (normalize_uid upper input.device_uid) ip input) old
          found other live))

-- A call that binds leaves the device active under its caller, under the normalised uid; before it the
-- device was unknown, or the caller's, or revoked; and no device under another uid changes.
pub bind_device-IsBound :
    (upper hash : String → String) (parse_ip : String → Bool) (decode : String → Option String)
    (now id : ℕ) (ds ds' : List Device) (user : ℕ) (input : DeviceInput) (d : Device)
    → bind_device upper hash parse_ip decode now id ds user input ≡ ok (bound ds' d)
    → IsBound ds ds' user (normalize_uid upper input.device_uid) d
unfolding excluded
bind_device-IsBound upper hash parse_ip decode now id ds ds' user input d e =
    let (ip, r) = bind_device-row upper hash parse_ip decode now id ds user input (bound ds' d) e in
    bind_row-IsBound now ds ds' user
      (excluded hash decode now id user (normalize_uid upper input.device_uid) ip input) d refl refl
      r
