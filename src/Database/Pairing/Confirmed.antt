-- ===== src/Database/Pairing/Confirmed.antt =====
-- What `ConfirmPairingClaim` of internal/database/agent_repository.go does when it returns.
use echoear_cloud.Base.{
  ℕ, String, ◌≡◌, refl, ◌⊎◌, inl, inr, Option, none, some, List, arith, find, trim_space,
}
use echoear_cloud.Database.Rows.{update_where}
use echoear_cloud.Database.Devices.{Device}
use echoear_cloud.Database.Pairing.{
  Claim, owned_active, confirmable, consume, with_device, with_claim, confirm_pairing_claim,
}

-- The table after a confirmation is the one before, or the one with the row consumed.
pub confirm-cases :
    (now : ℕ) (ds : List Device) (cs : List Claim) (user : ℕ) (code agent : String)
    → ((confirm_pairing_claim now ds cs user code agent).0 ≡ cs)
      ⊎ ((confirm_pairing_claim now ds cs user code agent).0
          ≡ update_where
              (confirmable now user (trim_space code))
              (consume now (trim_space agent))
              cs)
unfolding confirm_pairing_claim with_claim with_device
confirm-cases now ds cs user code agent = go (find (confirmable now user (trim_space code)) cs)
  where
    go :
        (found : Option Claim)
        → ((with_claim now ds cs user (trim_space code) (trim_space agent) found).0 ≡ cs)
          ⊎ ((with_claim now ds cs user (trim_space code) (trim_space agent) found).0
              ≡ update_where
                  (confirmable now user (trim_space code))
                  (consume now (trim_space agent))
                  cs)
    go none = inl refl
    go (some c) = end (find (owned_active user c.device_uid) ds)
      where
        end :
            (d : Option Device)
            → ((with_device cs
                  (update_where
                    (confirmable now user (trim_space code))
                    (consume now (trim_space agent))
                    cs)
                  (consume now (trim_space agent) c)
                  d).0
                ≡ cs)
              ⊎ ((with_device cs
                    (update_where
                      (confirmable now user (trim_space code))
                      (consume now (trim_space agent))
                      cs)
                    (consume now (trim_space agent) c)
                    d).0
                  ≡ update_where
                      (confirmable now user (trim_space code))
                      (consume now (trim_space agent))
                      cs)
        end none = inl refl
        end (some d) = inr refl

-- What a confirmation that gives a device did.
pub record IsConfirmed (now : ℕ) (ds : List Device) (cs cs' : List Claim) (user : ℕ)
    (code agent : String) (d : Device) (c : Claim) : Type 0 where
  pub row : Claim
  pub found : find (confirmable now user code) cs ≡ some row
  pub device : find (owned_active user row.device_uid) ds ≡ some d
  pub consumed : c ≡ consume now agent row
  pub rows : cs' ≡ update_where (confirmable now user code) (consume now agent) cs

pub confirm-IsConfirmed :
    (now : ℕ) (ds : List Device) (cs cs' : List Claim) (user : ℕ) (code agent : String) (d : Device)
    (c : Claim)
    → confirm_pairing_claim now ds cs user code agent ≡ (cs', some (d, c))
    → IsConfirmed now ds cs cs' user (trim_space code) (trim_space agent) d c
unfolding confirm_pairing_claim with_claim with_device
confirm-IsConfirmed now ds cs cs' user code agent d c e =
    go (find (confirmable now user (trim_space code)) cs) refl e
  where
    go :
        (o : Option Claim)
        → find (confirmable now user (trim_space code)) cs ≡ o
        → with_claim now ds cs user (trim_space code) (trim_space agent) o ≡ (cs', some (d, c))
        → IsConfirmed now ds cs cs' user (trim_space code) (trim_space agent) d c
    go none found h = cc
    go (some x) found h = end (find (owned_active user x.device_uid) ds) refl h
      where
        end :
            (o : Option Device)
            → find (owned_active user x.device_uid) ds ≡ o
            → with_device cs
                (update_where
                  (confirmable now user (trim_space code))
                  (consume now (trim_space agent))
                  cs)
                (consume now (trim_space agent) x)
                o
              ≡ (cs', some (d, c))
            → IsConfirmed now ds cs cs' user (trim_space code) (trim_space agent) d c
        end none owned h = ground arith
        end (some y) owned h = record {
          row = x;
          found = found;
          device = ground (arith, owned, h);
          consumed = ground (arith, h);
          rows = ground (arith, h);
        }
