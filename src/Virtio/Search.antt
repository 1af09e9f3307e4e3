-- ===== src/Virtio/Search.antt =====
-- The search for the block device in `init_virtio_backend` of
-- kernel/drivers/block/block_driver.c, described without its loop.
use kernel_fuzzing.Base.{
  ℕ, zero, suc, ◌+◌, ◌*◌, ◌%◌, ◌^◌, ◌<◌, ◌≡◌, ◌≢◌, inl, inr, refl, Bool, true, false, not, ◌&&◌,
  ◌∷◌, ◌==◌, Bool-cases, arith, subst, ap, ℕ_discrete,
}
use kernel_fuzzing.PageTable.{add64, virtio_reg_range}
use kernel_fuzzing.Virtio.{
  fetched, History, Device, Virtio, read_u32, check_virtio_driver, probe, find_device,
}

-- The 32 places are 512 bytes apart.
abbrev pub place : ℕ → ℕ
place i = virtio_reg_range + i * 0x200

-- The accesses after the first `i` places: magic value, version and id of each, in this order.
abbrev pub looked : ℕ → History → History
looked zero h = h
looked (suc i) h =
    fetched (place i + 8) ∷ (fetched (place i + 4) ∷ (fetched (place i) ∷ looked i h))

-- At place `i` the device answers with the magic value, version 2 and an id that is not 0.
abbrev pub IsThere : Device → ℕ → History → Type 0
IsThere device i h =
    let h0 = looked i h in
    let h1 = fetched (place i) ∷ h0 in
    (device h0 (place i) % 2 ^ 32 ≡ 0x74726976)
    × (device h1 (place i + 4) % 2 ^ 32 ≡ 2)
    × (device (fetched (place i + 4) ∷ h1) (place i + 8) % 2 ^ 32 ≢ 0)

-- The first place where a device is, or 0 if there is none.
pub data Search (device : Device) (h : History) (result : ℕ × History) : Type 0 where
  first :
      (i : ℕ)
      → i < 32
      → IsThere device i h
      → ((j : ℕ) → j < i → ¬ IsThere device j h)
      → result.0 ≡ place i
      → result.1 ≡ looked (suc i) h
      → Search device h result
  nowhere :
      ((j : ℕ) → j < 32 → ¬ IsThere device j h)
      → result.0 ≡ 0
      → result.1 ≡ looked 32 h
      → Search device h result

module _ (device : Device) (h : History) where
  abbrev at_place : (i : ℕ) → Virtio
  at_place i = record {
    virtio_base = place i;
    virtual_virtq_desc = 0;
    virtual_virtq_avail = 0;
    virtual_virtq_used = 0;
    physical_virtq_desc = 0;
    physical_virtq_avail = 0;
    physical_virtq_used = 0;
  }

  there : ℕ → Bool
  there i =
      let h0 = looked i h in
      let h1 = fetched (place i) ∷ h0 in
      (device h0 (place i) % 2 ^ 32 == 0x74726976)
      && ((device h1 (place i + 4) % 2 ^ 32 == 2)
          && not (device (fetched (place i + 4) ∷ h1) (place i + 8) % 2 ^ 32 == 0))

  there-IsThere : (i : ℕ) → there i ≡ true → IsThere device i h
  unfolding there
  there-IsThere i e = (ground arith, ground arith, λ z. ground arith)

  not_there : (i : ℕ) → there i ≡ false → ¬ IsThere device i h
  unfolding there
  not_there i e (magic, version, id) = ground (arith, e, magic, version, id)

  check_virtio_driver_lem :
      (i : ℕ)
      → i < 32
      → check_virtio_driver device (at_place i) (looked i h) ≡ (there i, looked (suc i) h)
  unfolding check_virtio_driver read_u32 there
  check_virtio_driver_lem i small =
      let a0 : add64 (place i) 0 ≡ place i = omega (arith, small) in
      let a4 : add64 (place i) 4 ≡ place i + 4 = omega (arith, small) in
      let a8 : add64 (place i) 8 ≡ place i + 8 = omega (arith, small) in rw (a0, a4, a8) refl

  probe-Search :
      (left i : ℕ)
      → i + left ≡ 32
      → ((j : ℕ) → j < i → ¬ IsThere device j h)
      → Search device h (probe device left i (looked i h))
  unfolding probe
  probe-Search zero i e none =
      let all : i ≡ 32 = omega (arith, e) in
      nowhere (λ j small. none j (omega (arith, small, all))) refl (ap (λ i. looked i h) all)
  probe-Search (suc left) i e none =
      let small : i < 32 = omega (arith, e) in
      let here : add64 virtio_reg_range (i * 0x200) ≡ place i = omega (arith, small) in
      let found = check_virtio_driver_lem i small in
      elim (Bool-cases (there i)) [
        | inl yes_there ↦
            rw (here, found, yes_there) (first i small (there-IsThere i yes_there) none refl refl)
        | inr no_there ↦
            let next : i + 1 ≡ suc i = omega arith in
            rw (here, found, no_there, next)
              (probe-Search left (suc i) (omega (arith, e)) (λ j below there_j.
                elim (ℕ_discrete j i) [
                  | yes same ↦ not_there i no_there (subst (λ k. IsThere device k h) same there_j)
                  | no other ↦ none j (omega (arith, below, other)) there_j
                ]))
      ]

  pub find_device-Search : Search device h (find_device device h)
  unfolding find_device
  find_device-Search = probe-Search 32 0 refl (λ j below there_j. omega (arith, below))
