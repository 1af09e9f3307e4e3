-- ===== src/Virtio.antt =====
-- The start of the virtio block device: kernel/drivers/virtio_blk/virtio_blk.c, and the search for
-- the device in `init_virtio_backend` of kernel/drivers/block/block_driver.c. The device is a
-- parameter: what it answers to a read, from all accesses before and the address.
pub mod Handshake
pub mod Search
use kernel_fuzzing.Base.{
  ℕ, zero, suc, ◌+◌, ◌*◌, ◌/◌, ◌%◌, ◌^◌, bit_and, bit_or, Bool, true, false, not, Option, none,
  some, List, [], ◌∷◌, ◌==◌, ◌&&◌, if◌then◌else◌,
}
use kernel_fuzzing.PageTable.{add64, shr, virtio_reg_range}

-- An access to the device's registers; the accesses stand with the last one first.
pub data Access : Type 0 where
  wrote : (address value : ℕ) → Access
  fetched : (address : ℕ) → Access

abbrev pub History : Type 0
History = List Access

abbrev pub Device : Type 0
Device = History → ℕ → ℕ

-- `struct _virtio`
pub record Virtio : Type 0 where
  pub virtio_base : ℕ
  pub virtual_virtq_desc : ℕ
  pub virtual_virtq_avail : ℕ
  pub virtual_virtq_used : ℕ
  pub physical_virtq_desc : ℕ
  pub physical_virtq_avail : ℕ
  pub physical_virtq_used : ℕ

unfoldable pub write_u32 : Virtio → (offset value : ℕ) → History → History
write_u32 v offset value h = wrote (add64 v.virtio_base offset) (value % 2 ^ 32) ∷ h

unfoldable pub get_lower_half : ℕ → ℕ
get_lower_half value = bit_and value 0x00000000ffffffff

unfoldable pub get_upper_half : ℕ → ℕ
get_upper_half value = shr (bit_and value 0xffffffff00000000) 32 % 2 ^ 32

unfoldable pub update_status : Virtio → ℕ → History → History
update_status v status h = write_u32 v 0x070 status h

unfoldable pub init_virtio_registers : Virtio → History → History
init_virtio_registers v h =
    let h = write_u32 v 0x080 (get_lower_half v.physical_virtq_desc) h in
    let h = write_u32 v 0x084 (get_upper_half v.physical_virtq_desc) h in
    let h = write_u32 v 0x090 (get_lower_half v.physical_virtq_avail) h in
    let h = write_u32 v 0x094 (get_upper_half v.physical_virtq_avail) h in
    let h = write_u32 v 0x0a0 (get_lower_half v.physical_virtq_used) h in
    write_u32 v 0x0a4 (get_upper_half v.physical_virtq_used) h

module _ (device : Device) where
  unfoldable pub read_u32 : Virtio → (offset : ℕ) → History → ℕ × History
  read_u32 v offset h =
      (device h (add64 v.virtio_base offset) % 2 ^ 32, fetched (add64 v.virtio_base offset) ∷ h)

  -- After the five reads at its start.
  unfoldable pub setup_queue : Virtio → (ready_status : ℕ) → History → History
  setup_queue v ready_status h =
      if not (ready_status == 0)
      then h
      else (let (queue_max_size, h) = read_u32 v 0x034 h in
          if queue_max_size == 0
          then h
          else write_u32 v 0x044 1 (init_virtio_registers v (write_u32 v 0x038 12 h)))

  unfoldable pub init_queue : Virtio → History → History
  init_queue v h =
      let h = write_u32 v 0x030 0 h in
      let (ready_status, h) = read_u32 v 0x044 h in
      let (device_version, h) = read_u32 v 0x004 h in
      let (device_id, h) = read_u32 v 0x008 h in
      let (device_features, h) = read_u32 v 0x010 h in setup_queue v ready_status h

  unfoldable pub check_virtio_driver : Virtio → History → Bool × History
  check_virtio_driver v h =
      let (magic_value, h) = read_u32 v 0x000 h in
      let (device_version, h) = read_u32 v 0x004 h in
      let (device_id, h) = read_u32 v 0x008 h in
      (magic_value == 0x74726976 && (device_version == 2 && not (device_id == 0)), h)

  -- The reset and the features; the reads for messages are accesses too.
  unfoldable pub offer_features : Virtio → History → History
  offer_features v h =
      let h = update_status v 0 h in
      let h = update_status v 1 h in
      let h = update_status v (bit_or 1 2) h in
      let (_, h) = read_u32 v 0x070 h in
      let h = write_u32 v 0x014 0 h in
      let (device_features_sel_zero, h) = read_u32 v 0x010 h in
      let h = write_u32 v 0x014 1 h in
      let (_, h) = read_u32 v 0x010 h in
      let h = write_u32 v 0x024 0 h in
      let h = write_u32 v 0x020 device_features_sel_zero h in
      let h = write_u32 v 0x024 1 h in
      let h = write_u32 v 0x020 (1 * 2 ^ 0) h in
      let h = write_u32 v 0x014 0 h in
      let (_, h) = read_u32 v 0x010 h in
      let h = write_u32 v 0x014 1 h in
      let (_, h) = read_u32 v 0x010 h in let (_, h) = read_u32 v 0x070 h in h

  -- Up to the status FEATURES_OK.
  unfoldable pub negotiate : Virtio → History → History
  negotiate v h =
      let (status, h) = read_u32 v 0x070 (offer_features v h) in
      let h = update_status v (bit_or status 8) h in let (_, h) = read_u32 v 0x070 h in h

  unfoldable pub init_virtio_driver : Virtio → History → History
  init_virtio_driver v h =
      let h = init_queue v (negotiate v h) in
      let (status, h) = read_u32 v 0x070 h in update_status v (bit_or status 4) h

  -- The loop over the 32 places where a device may be; the register base of the first one found, or
  -- 0.
  unfoldable pub probe : (left i : ℕ) → History → ℕ × History
  probe zero i h = (0, h)
  probe (suc left) i h =
      let place = add64 virtio_reg_range (i * 0x200) in
      let (found, h') =
        check_virtio_driver
          (record {
            virtio_base = place;
            virtual_virtq_desc = 0;
            virtual_virtq_avail = 0;
            virtual_virtq_used = 0;
            physical_virtq_desc = 0;
            physical_virtq_avail = 0;
            physical_virtq_used = 0;
          })
          h in
      let later = probe left (i + 1) h' in if found then (place, h') else later

  unfoldable pub find_device : History → ℕ × History
  find_device h = probe 32 0 h
