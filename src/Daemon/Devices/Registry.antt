-- ===== src/Daemon/Devices/Registry.antt =====
-- crates/matrix-daemon/src/devices.rs: `begin` and `cancel`, which port is being identified. The
-- `AtomicBool` flags that sessions share with the registry are the cells of `flags`.
pub mod Holds
pub mod Once
use fw16_ledmatrix.Base.{
  ℕ, ◌≡◌, refl, arith, Bool, true, false, not, ◌||◌, Option, none, some, List, [], ◌∷◌, ◌++◌, Text,
  text_eq, text_beq_iff, ◌==◌, if◌then◌else◌, get_elem?, set, length, unwrap_or, keep, is_some_and,
  Bool-cases, inl, inr,
}
use fw16_ledmatrix.Client.Messages.{Device}
use fw16_ledmatrix.Daemon.Devices.Route.{plugged}

pub record Registry : Type 0 where
  pub flags : List Bool
  pub active : List (Text × ℕ)

unfoldable pub flag : Registry → ℕ → Bool
flag r i = unwrap_or (get_elem? r.flags i) false

unfoldable pub entry : Text → List (Text × ℕ) → Option ℕ
entry port [] = none
entry port ((name, i) ∷ rest) = if name == port then some i else entry port rest

-- `store(false)` on a flag: by `cancel`, at the end of `identify`, or when a client goes away.
unfoldable pub clear : Registry → ℕ → Registry
clear r i = record r { flags = set r.flags i false }

unfoldable pub cancel : Registry → Text → Registry
unfolding clear
cancel r port = elim (entry port r.active) [ none ↦ r | some i ↦ clear r i ]

-- What `active.retain(..)` leaves.
unfoldable pub lasting : Registry → List Device → List (Text × ℕ)
lasting r devices = keep (λ (e : Text × ℕ). flag r e.1 || plugged devices e.0) r.active

unfoldable pub identifying : Registry → List (Text × ℕ) → Text → Bool
identifying r active port = is_some_and (entry port active) (flag r)

-- A new flag for the port: it takes the place of the port's old one.
unfoldable pub grant : Registry → List (Text × ℕ) → Text → Option ℕ × Registry
grant r active port = (
  some (length r.flags),
  record {
    flags = r.flags ++ true ∷ [];
    active = (port, length r.flags) ∷ keep (λ (e : Text × ℕ). not (e.0 == port)) active;
  },
)

-- `present` is `none` where the ports cannot be listed.
unfoldable pub begin : Registry → Text → Option (List Device) → Option ℕ × Registry
begin r port none = (none, r)
begin r port (some devices) =
    if not (plugged devices port)
    then (none, r)
    else if identifying r (lasting r devices) port
    then (none, record r { active = lasting r devices })
    else grant r (lasting r devices) port
