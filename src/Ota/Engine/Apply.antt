-- ===== src/Ota/Engine/Apply.antt =====
-- An update switches slots only after a verified write, and writes one slot only.
use bmt_ai_os.Prelude.{
  ℕ, String, ◌≡◌, ◌⊎◌, refl, ap, ◌∙◌, inl, inr, Bool, true, false, Bool-cases, Option, none, some,
  Option-cases, List, str_eq, str_eq_iff, str_eq_refl, if◌then◌else◌, Result, ok, Result-cases,
  length, take, arith,
}
use bmt_ai_os.Prelude.Dict
use bmt_ai_os.Prelude.Dict.{Dict, get-put, get-pop}
use bmt_ai_os.Ota.State
use bmt_ai_os.Ota.State.{Json, StateFile}
use bmt_ai_os.Ota.Verify.{enforce_signature, IsAccepted, enforce_signature-IsAccepted}
use bmt_ai_os.Ota.Engine.{
  Device, WriteRun, UpdateRequest, OtaError, file_backed, write_file_backed, write_dd, write_slot,
  leave, switch_after, apply_update,
}

-- What the slot of a request holds, where the request writes: the file of the slot, or the first bytes
-- of its device, as many as the image has.
pub stored : UpdateRequest → ℕ → Device → Option (List ℕ)
stored q size d =
    if file_backed q.dry_run q.block_dev_exists
    then Dict.get d.slot_files q.target_slot
    else elim (Dict.get d.slot_devices q.target_slot) [ none ↦ none | some c ↦ some (take size c) ]

-- The slot holds an image with the digest of the source image.
pub record IsVerified (sha256 : List ℕ → String) (q : UpdateRequest) (d : Device) : Type 0 where
  pub image : List ℕ
  pub content : List ℕ
  pub was_read : q.write.source ≡ some image
  pub is_stored : stored q (length image) d ≡ some content
  pub same : sha256 content ≡ sha256 image

module _ (sha256 : List ℕ → String) where
  get-leave :
      (slots : Dict (List ℕ)) (slot : String) (left : Option (List ℕ))
      → Dict.get (leave slots slot left) slot ≡ left
  unfolding leave
  get-leave slots slot none = ground (arith, get-pop slots slot slot, str_eq_refl slot)
  get-leave slots slot (some c) = ground (arith, get-put slots slot slot c, str_eq_refl slot)

  get-leave_ne :
      (slots : Dict (List ℕ)) (slot other : String) (left : Option (List ℕ))
      → str_eq slot other ≡ false
      → Dict.get (leave slots slot left) other ≡ Dict.get slots other
  unfolding leave
  get-leave_ne slots slot other none h = ground (arith, get-pop slots slot other)
  get-leave_ne slots slot other (some c) h = ground (arith, get-put slots slot other c)

  write_file_backed-verifies :
      (slot : String) (w : WriteRun) (slots : Dict (List ℕ))
      → (write_file_backed sha256 slot w slots).1 ≡ true
      → (image : List ℕ) × (content : List ℕ) × (w.source ≡ some image)
        × (Dict.get (write_file_backed sha256 slot w slots).0 slot ≡ some content)
        × (sha256 content ≡ sha256 image)
  unfolding write_file_backed
  write_file_backed-verifies slot w slots h = elim (Option-cases w.source) [
    | inl e ↦ absurd (ground arith)
    | inr (image, e) ↦ elim (Option-cases w.left) [
      | inl n ↦ absurd (ground arith)
      | inr (content, g) ↦ (
        image,
        content,
        e,
        ground (arith, get-leave slots slot w.left),
        ground (arith, str_eq_iff (sha256 content) (sha256 image)),
      )
    ]
  ]

  write_dd-verifies :
      (slot : String) (w : WriteRun) (slots : Dict (List ℕ))
      → (write_dd sha256 slot w slots).1 ≡ true
      → (image : List ℕ) × (content : List ℕ) × (w.source ≡ some image)
        × (Dict.get (write_dd sha256 slot w slots).0 slot ≡ some content)
        × (sha256 (take (length image) content) ≡ sha256 image)
  unfolding write_dd
  write_dd-verifies slot w slots h = elim (Option-cases w.source) [
    | inl e ↦ absurd (ground arith)
    | inr (image, e) ↦ elim (Option-cases w.left) [
      | inl n ↦ absurd (ground arith)
      | inr (content, g) ↦ (
        image,
        content,
        e,
        ground (arith, get-leave slots slot w.left),
        ground (arith, str_eq_iff (sha256 (take (length image) content)) (sha256 image)),
      )
    ]
  ]

  write_slot-IsVerified :
      (q : UpdateRequest) (d : Device)
      → (write_slot sha256 q d).1 ≡ true
      → IsVerified sha256 q (write_slot sha256 q d).0
  unfolding write_slot
  write_slot-IsVerified q d h = elim (Bool-cases (file_backed q.dry_run q.block_dev_exists)) [
    | inl f ↦
        let (image, content, r, g, s) =
          write_file_backed-verifies q.target_slot q.write d.slot_files (rw f at h) in
        record {
          image = image;
          content = content;
          was_read = r;
          is_stored = unfold stored in rw f g;
          same = s;
        }
    | inr f ↦
        let (image, content, r, g, s) =
          write_dd-verifies q.target_slot q.write d.slot_devices (rw f at h) in
        record {
          image = image;
          content = take (length image) content;
          was_read = r;
          is_stored = unfold stored in rw (f, g) refl;
          same = s;
        }
  ]

  write_slot-state_file :
      (q : UpdateRequest) (d : Device) → (write_slot sha256 q d).0.state_file ≡ d.state_file
  unfolding write_slot
  write_slot-state_file q d = ground arith

  IsVerified-state_file :
      (q : UpdateRequest) (d : Device) (file : StateFile)
      → IsVerified sha256 q d
      → IsVerified sha256 q (record d { state_file = file })
  IsVerified-state_file q d file v = record {
    image = v.image;
    content = v.content;
    was_read = v.was_read;
    is_stored = unfold stored in v.is_stored;
    same = v.same;
  }

  -- The files and devices of the other slots stay as they are, and so do the state and U-Boot.
  write_slot-others :
      (q : UpdateRequest) (d : Device) (other : String)
      → str_eq q.target_slot other ≡ false
      → (Dict.get (write_slot sha256 q d).0.slot_files other ≡ Dict.get d.slot_files other)
        × (Dict.get (write_slot sha256 q d).0.slot_devices other ≡ Dict.get d.slot_devices other)
        × ((write_slot sha256 q d).0.state_file ≡ d.state_file)
        × ((write_slot sha256 q d).0.uboot ≡ d.uboot)
  unfolding write_slot write_file_backed write_dd
  write_slot-others q d other ne = (
    ground (
      arith,
      get-leave_ne d.slot_files q.target_slot other q.write.left ne,
      get-pop d.slot_files q.target_slot other,
    ),
    ground (arith, get-leave_ne d.slot_devices q.target_slot other q.write.left ne),
    ground arith,
    ground arith,
  )

  write_slot-uboot : (q : UpdateRequest) (d : Device) → (write_slot sha256 q d).0.uboot ≡ d.uboot
  unfolding write_slot
  write_slot-uboot q d = ground arith

  module _ (str_of : Json → String) (int_of : String → Option ℕ) where
    -- What must have passed before an update reports success.
    apply_update-gates :
        (q : UpdateRequest) (d : Device)
        → (apply_update sha256 str_of int_of q d).1 ≡ ok true
        → ((q.target_slot ≡ "a") ⊎ (q.target_slot ≡ "b"))
          × (q.image_exists ≡ true)
          × (enforce_signature q.signing ≡ true)
          × ((write_slot sha256 q d).1 ≡ true)
    unfolding apply_update
    apply_update-gates q d h = (
      ground (arith, str_eq_iff q.target_slot "a", str_eq_iff q.target_slot "b"),
      ground arith,
      ground arith,
      ground arith,
    )

    apply_update-eq :
        (q : UpdateRequest) (d : Device)
        → (apply_update sha256 str_of int_of q d).1 ≡ ok true
        → apply_update sha256 str_of int_of q d
          ≡ switch_after sha256 str_of int_of q.now (write_slot sha256 q d).0
    unfolding apply_update
    apply_update-eq q d h = ground arith

    switch_after-true :
        (now : String) (d : Device)
        → (switch_after sha256 str_of int_of now d).1 ≡ ok true
        → (file : StateFile) × (s : State.OtaState) × (State.switch_slots str_of int_of now
              d.state_file
            ≡ ok (file, s))
          × ((switch_after sha256 str_of int_of now d).0 ≡ record d { state_file = file })
    unfolding switch_after
    switch_after-true now d h =
        elim (Result-cases (State.switch_slots str_of int_of now d.state_file)) [
          | inl ((file, s), e) ↦ (file, s, e, ground (arith, e))
          | inr (x, e) ↦ absurd (ground (arith, e))
        ]

    -- When an update reports success, its target is slot a or b, the image exists, its signature was checked and is
    -- valid unless BMT_OTA_ALLOW_UNSIGNED is true, the slot's contents have the digest of the image as it was read, and
    -- the state file is the one that `switch_slots` writes.
    pub apply_update-true :
        (q : UpdateRequest) (d : Device)
        → (apply_update sha256 str_of int_of q d).1 ≡ ok true
        → ((q.target_slot ≡ "a") ⊎ (q.target_slot ≡ "b"))
          × (q.image_exists ≡ true)
          × IsAccepted q.signing
          × IsVerified sha256 q (apply_update sha256 str_of int_of q d).0
          × ((s : State.OtaState) × (State.switch_slots str_of int_of q.now d.state_file
                ≡ ok ((apply_update sha256 str_of int_of q d).0.state_file, s)))
    apply_update-true q d h =
        let d' = (write_slot sha256 q d).0 in
        let (target, exists, signed, done) = apply_update-gates q d h in
        let whole = apply_update-eq q d h in
        let (file, s, e, last) = switch_after-true q.now d' (rw whole at h) in
        let end : (apply_update sha256 str_of int_of q d).0 ≡ record d' { state_file = file } =
          ap (λ (r : Device × Result OtaError Bool). r.0) whole ∙ last in
        (
          target,
          exists,
          enforce_signature-IsAccepted q.signing signed,
          rw end (IsVerified-state_file q d' file (write_slot-IsVerified q d done)),
          (s, rw end (rw (write_slot-state_file q d) at e)),
        )

    -- An update that does not report success, by returning `False` or by raising, leaves the state file as it was, and
    -- however it ends, what the other slots hold stays the same.
    pub apply_update-safe :
        (q : UpdateRequest) (d : Device) (other : String)
        → str_eq q.target_slot other ≡ false
        → (((apply_update sha256 str_of int_of q d).1 ≡ ok true)
            ⊎ ((apply_update sha256 str_of int_of q d).0.state_file ≡ d.state_file))
          × (Dict.get (apply_update sha256 str_of int_of q d).0.slot_files other
              ≡ Dict.get d.slot_files other)
          × (Dict.get (apply_update sha256 str_of int_of q d).0.slot_devices other
              ≡ Dict.get d.slot_devices other)
    unfolding apply_update
    apply_update-safe q d other ne =
        let k = write_slot-others q d other ne in
        (ground (arith, k), ground (arith, k), ground (arith, k))

    pub apply_update-uboot :
        (q : UpdateRequest) (d : Device) → (apply_update sha256 str_of int_of q d).0.uboot ≡ d.uboot
    unfolding apply_update
    apply_update-uboot q d = let k = write_slot-uboot q d in ground (arith, k)
