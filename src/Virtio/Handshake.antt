-- ===== src/Virtio/Handshake.antt =====
-- What the device of kernel/drivers/virtio_blk/virtio_blk.c sees during the start.
use kernel_fuzzing.Base.{
  ℕ, ◌+◌, ◌-◌, ◌*◌, ◌/◌, ◌%◌, ◌^◌, ◌<◌, ◌≡◌, ◌∙◌, ap, List, [], ◌∷◌, ◌==◌, if◌then◌else◌, arith,
}
use kernel_fuzzing.Base.Bits.{bit_and_low, bit_and_split, bit_and_ones, bit_and-zero}
use kernel_fuzzing.PageTable.{add64}
use kernel_fuzzing.Virtio.{
  wrote, fetched, History, Device, Virtio, write_u32, read_u32, get_lower_half, get_upper_half,
  update_status, init_virtio_registers, setup_queue, init_queue, offer_features, negotiate,
  init_virtio_driver,
}

-- The writes of a history to one register, the last one first.
abbrev pub written : ℕ → History → List ℕ
written address [] = []
written address (fetched a ∷ h) = written address h
written address (wrote a value ∷ h) =
    if a == address then value ∷ written address h else written address h

-- The two halves of a 64-bit address fit 32-bit registers and together are the address.
pub halves :
    (value : ℕ)
    → value < 2 ^ 64
    → (get_upper_half value * 2 ^ 32 + get_lower_half value ≡ value)
      × (get_upper_half value < 2 ^ 32)
      × (get_lower_half value < 2 ^ 32)
unfolding get_upper_half get_lower_half
halves value h = ground (
  arith,
  bit_and_low 32 value,
  bit_and_split 32 (value / 2 ^ 32) (2 ^ 32 - 1) (value % 2 ^ 32) 0,
  bit_and_ones 32 (value / 2 ^ 32),
  bit_and-zero (value % 2 ^ 32),
)

-- The value written last, 0 if there is none.
abbrev pub last : List ℕ → ℕ
last [] = 0
last (value ∷ values) = value

-- The device answers a read of STATUS with the value written last: it accepts the features.
abbrev pub KeepsStatus : Device → Virtio → Type 0
KeepsStatus device v =
    (h : History) → device h (add64 v.virtio_base 0x070) ≡ last (written (v.virtio_base + 0x070) h)

module _ (device : Device) (v : Virtio) (base : v.virtio_base + 0x200 < 2 ^ 64) where
  abbrev statuses : History → List ℕ
  statuses = written (v.virtio_base + 0x070)

  statuses-offer_features :
      (h : History) → statuses (offer_features device v h) ≡ 3 ∷ (1 ∷ (0 ∷ statuses h))
  unfolding offer_features update_status write_u32 read_u32
  statuses-offer_features h = ground arith

  statuses-registers : (h : History) → statuses (init_virtio_registers v h) ≡ statuses h
  unfolding init_virtio_registers write_u32
  statuses-registers h = ground arith

  statuses-setup_queue :
      (ready : ℕ) (h : History) → statuses (setup_queue device v ready h) ≡ statuses h
  unfolding setup_queue write_u32 read_u32
  statuses-setup_queue ready h =
      ground (arith, statuses-registers (write_u32 v 0x038 12 (read_u32 device v 0x034 h).1))

  statuses-init_queue : (h : History) → statuses (init_queue device v h) ≡ statuses h
  unfolding init_queue write_u32 read_u32
  statuses-init_queue h = statuses-setup_queue _ _ ∙ ground arith

  statuses-negotiate :
      KeepsStatus device v
      → (h : History) → statuses (negotiate device v h) ≡ 11 ∷ (3 ∷ (1 ∷ (0 ∷ statuses h)))
  unfolding negotiate update_status write_u32 read_u32
  statuses-negotiate keeps h =
      let answer = keeps (offer_features device v h) ∙ ap last (statuses-offer_features h) in
      rw (answer) (ground (arith, statuses-offer_features h))

  -- With a device that keeps its status, the driver writes STATUS five times, in the order of the
  -- virtio standard: reset, ACKNOWLEDGE, DRIVER, FEATURES_OK and DRIVER_OK, each added to those
  -- before, whether or not the device has the queue.
  pub init_virtio_driver-statuses :
      KeepsStatus device v
      → (h : History)
      → statuses (init_virtio_driver device v h) ≡ 15 ∷ (11 ∷ (3 ∷ (1 ∷ (0 ∷ statuses h))))
  unfolding init_virtio_driver update_status write_u32 read_u32
  init_virtio_driver-statuses keeps h =
      let all = statuses-init_queue (negotiate device v h) ∙ statuses-negotiate keeps h in
      let answer = keeps (init_queue device v (negotiate device v h)) ∙ ap last all in
      rw (answer) (ground (arith, all))
