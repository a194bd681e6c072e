-- ===== src/Update/Operations/Release.antt =====
-- When an active claim may be retired.
use codearmory_blacksmith.Base.{
  ◌≡◌, ◌⊎◌, inl, inr, refl, Text, true, false, not, ◌||◌, Option, none, some, any, if_elim,
}
use codearmory_blacksmith.Update.Operations.Turns.{
  Metadata, ClaimOwner, ClaimStatus, absent, busy, releasable, Found, metadata_is_within_lease,
  corrupt_claim_status, ends, is_pending_at, owned_status, read_owner, inspect_active_claim,
  owner_status, file_status, directory_status, is_bad_owner_file,
}

-- The file or directory has not changed within the lease.
abbrev pub IsStale : Found → Metadata → Type 0
unfolding metadata_is_within_lease
IsStale f m = metadata_is_within_lease f.now m ≡ false

-- The owner's operation has ended, or it is pending and no longer active.
abbrev pub IsOver : Found → ClaimOwner → Type 0
IsOver f owner =
    (any (ends owner.generation) f.operations ≡ true)
    ⊎ ((any (is_pending_at owner.generation) f.operations ≡ true)
        × (f.is_active owner.generation ≡ false))

-- A claim that names its owner is over, or what is there of the claim is stale.
abbrev pub MayRetire : Found → Option ClaimOwner → Type 0
unfolding IsStale
MayRetire f (some owner) = IsOver f owner
MayRetire f none =
    ((d : Metadata) × (f.directory ≡ some d) × IsStale f d)
    ⊎ ((m : Metadata) × (f.owner_file ≡ some m) × IsStale f m)

-- What is found justifies the status.
abbrev Justified : Found → ClaimStatus → Type 0
unfolding MayRetire
Justified f absent = Unit
Justified f (busy o) = Unit
Justified f (releasable key o) = MayRetire f o

corrupt-Justified :
    (f : Found) (m : Metadata)
    → (IsStale f m → MayRetire f none)
    → Justified f (corrupt_claim_status f.now f.fingerprint m)
unfolding corrupt_claim_status IsStale Justified
corrupt-Justified f m law =
    if_elim (Justified f) (metadata_is_within_lease f.now m) _ _ (λ h. tt) (λ h. law h)

owned-Justified :
    (f : Found) (m : Metadata) (owner : ClaimOwner)
    → (IsStale f m → MayRetire f none)
    → Justified f (owned_status f m owner)
unfolding owned_status Justified MayRetire
owned-Justified f m owner law =
    if_elim (Justified f) (any (ends owner.generation) f.operations) _ _ (λ h. inl h)
      (λ h.
        if_elim (Justified f) (any (is_pending_at owner.generation) f.operations) _ _
          (λ k.
            if_elim (Justified f) (f.is_active owner.generation) _ _ (λ l. tt) (λ l. inr (k, l)))
          (λ k. corrupt-Justified f m law))

owner-Justified :
    (f : Found) (m : Metadata) (o : Option ClaimOwner)
    → (IsStale f m → MayRetire f none)
    → Justified f (owner_status f m o)
unfolding owner_status
owner-Justified f m none law = corrupt-Justified f m law
owner-Justified f m (some owner) law = owned-Justified f m owner law

file-Justified :
    (f : Found) (d : Metadata) (file : Option Metadata)
    → f.directory ≡ some d
    → f.owner_file ≡ file
    → Justified f (file_status f d file)
unfolding file_status MayRetire
file-Justified f d none e k = corrupt-Justified f d (λ stale. inl (d, e, stale))
file-Justified f d (some m) e k =
    if_elim (Justified f) (is_bad_owner_file m) _ _
      (λ h. corrupt-Justified f m (λ stale. inr (m, k, stale)))
      (λ h. owner-Justified f m (read_owner f.owner_value) (λ stale. inr (m, k, stale)))

directory-Justified :
    (f : Found) (d : Option Metadata) → f.directory ≡ d → Justified f (directory_status f d)
unfolding directory_status Justified MayRetire
directory-Justified f none e = tt
directory-Justified f (some d) e =
    if_elim (Justified f) (not d.is_directory || d.is_symbolic_link) _ _
      (λ h. corrupt-Justified f d (λ stale. inl (d, e, stale)))
      (λ h. file-Justified f d f.owner_file e refl)

-- If the active claim is found releasable, then the operation of the owner that it names has ended,
-- or it is pending and no longer active; and a claim that names no owner has a directory or an
-- owner file that has not changed within the lease.
pub inspect_active_claim-MayRetire :
    (f : Found) (key : Text) (o : Option ClaimOwner)
    → inspect_active_claim f ≡ releasable key o
    → MayRetire f o
unfolding inspect_active_claim Justified
inspect_active_claim-MayRetire f key o h =
    let justified : Justified f (directory_status f f.directory) =
      directory-Justified f f.directory refl in
    rw h at justified
