-- ===== src/Client/Local/Checks.antt =====
-- The checks of crates/matrix-client/src/local/unix.rs, and what they say of an endpoint.
use fw16_ledmatrix.Base.{
  ℕ, ◌%◌, ◌≡◌, refl, ap, arith, Bool, true, some, Result, ok, err, ◌⊎◌, inl, inr, Bool-cases,
  nat_beq_iff, nat_beq, subst,
}
use fw16_ledmatrix.Client.Failure.{IoKind, not_found, connection_refused}
use fw16_ledmatrix.Client.Conversation.{Done}
use fw16_ledmatrix.Client.Local.{
  FileType, is_dir, is_file, is_socket, Metadata, check_private, shared_rights, private_directory,
  private_socket, check_lock, Calls,
}

-- Of this kind, of this user, and with no rights for others.
abbrev pub Private : (FileType → Bool) → ℕ → Metadata → Type 0
Private is_kind user m = (is_kind m.kind ≡ true) × (m.uid ≡ user) × (m.mode % 64 ≡ 0)

check_private-Private :
    (is_kind : FileType → Bool) (user : ℕ) (m n : Metadata)
    → check_private is_kind user m ≡ ok n
    → Private is_kind user m × (m ≡ n)
unfolding check_private shared_rights
check_private-Private is_kind user m n h = ground arith

-- The directory is private, and the listener holds the lock, which is private too.
abbrev pub Owned : Calls → Type 0
Owned c =
    ((m : Metadata) × (c.parent_metadata ≡ ok m) × Private is_dir c.user m)
    × ((l : Metadata) × (c.lock_metadata ≡ ok l) × Private is_file c.user l × (l.links ≡ 1))
    × ((d : Done) × (c.try_lock ≡ some (ok d)))

-- A private socket stands there, and nobody serves it.
abbrev pub Stale : Calls → Type 0
Stale c =
    ((m : Metadata) × (c.socket_before ≡ ok m) × Private is_socket c.user m)
    × (c.probe ≡ some (err connection_refused))

abbrev pub Free : Calls → Type 0
Free c = (c.socket_before ≡ err not_found) ⊎ (Stale c × ((d : Done) × (c.remove ≡ ok d)))

pub private_directory-Private :
    (user : ℕ) (r : Result Metadata IoKind) (n : Metadata)
    → private_directory user r ≡ ok n
    → (m : Metadata) × (r ≡ ok m) × Private is_dir user m
unfolding private_directory
private_directory-Private user (ok m) n h = (m, refl, (check_private-Private is_dir user m n h).0)
private_directory-Private user (err e) n h = absurd (cc h)

pub private_socket-Private :
    (user : ℕ) (r : Result Metadata IoKind) (n : Metadata)
    → private_socket user r ≡ ok n
    → (r ≡ ok n) × Private is_socket user n
unfolding private_socket
private_socket-Private user (ok m) n h =
    let (p, e) = check_private-Private is_socket user m n h in
    (ap ok e, subst (Private is_socket user) e p)
private_socket-Private user (err e) n h = absurd (cc h)

pub private_socket-not_found :
    (user : ℕ) (r : Result Metadata IoKind)
    → private_socket user r ≡ err not_found
    → r ≡ err not_found
unfolding private_socket check_private
private_socket-not_found user (ok m) h = absurd (ground arith)
private_socket-not_found user (err e) h = h

pub check_lock-Private :
    (user : ℕ) (r : Result Metadata IoKind) (n : Metadata)
    → check_lock user r ≡ ok n
    → (l : Metadata) × (r ≡ ok l) × Private is_file user l × (l.links ≡ 1)
unfolding check_lock
check_lock-Private user (ok l) n h = elim (Bool-cases (nat_beq l.links 1)) [
  | inl e ↦ (
    l,
    refl,
    (check_private-Private is_file user l n (ground (arith, e, h))).0,
    (nat_beq_iff l.links 1).0 e,
  )
  | inr e ↦ absurd (ground (arith, e, h))
]
check_lock-Private user (err e) n h = absurd (cc h)
