-- ===== src/Tests/Blob.antt =====
-- Concrete device trees: one with a bank of RAM, one with two virtio places.
use kernel_fuzzing.Base.{
  ℕ, ◌+◌, ◌-◌, ◌≡◌, refl, Bool, true, false, some, List, [], ◌∷◌, ◌++◌, ◌==◌, ◌&&◌, arith,
}
use kernel_fuzzing.DeviceTree.{
  Bytes, byte_at, load_u32, bswap32, dtb_base, virt_dtb_base, struct_block, strings_block,
  virt_struct_block, virt_strings_block, get_total_ram, get_drive_info,
}
use kernel_fuzzing.DeviceTree.Reading.{be32, Holds, at}
use kernel_fuzzing.DeviceTree.Tree.{Item, begins, property, ends, tree_bytes, drive_of}
use kernel_fuzzing.DeviceTree.TotalRam.{get_total_ram-ram_of}
use kernel_fuzzing.DeviceTree.DriveInfo.{get_drive_info-drive_of}

unfoldable pub holds : Bytes → ℕ → List ℕ → Bool
unfolding byte_at
holds m p [] = true
holds m p (x ∷ xs) = byte_at m p == x && holds m (p + 1) xs

pub holds-Holds : (m : Bytes) (p : ℕ) (xs : List ℕ) → holds m p xs ≡ true → Holds m p xs
unfolding holds
holds-Holds m p [] h = tt
holds-Holds m p (x ∷ xs) h = (ground arith, holds-Holds m (p + 1) xs (ground arith))

-- "memory@0", "virtio", "reg", "interrupts"
abbrev memory_name : List ℕ
memory_name = 109 ∷ 101 ∷ 109 ∷ 111 ∷ 114 ∷ 121 ∷ 64 ∷ 48 ∷ []

abbrev virtio_name : List ℕ
virtio_name = 118 ∷ 105 ∷ 114 ∷ 116 ∷ 105 ∷ 111 ∷ []

abbrev reg_name : List ℕ
reg_name = 114 ∷ 101 ∷ 103 ∷ []

abbrev interrupts_name : List ℕ
interrupts_name = 105 ∷ 110 ∷ 116 ∷ 101 ∷ 114 ∷ 114 ∷ 117 ∷ 112 ∷ 116 ∷ 115 ∷ []

abbrev strings : List ℕ
strings = reg_name ++ 0 ∷ interrupts_name ++ 0 ∷ []

-- The memory of a blob at an address: the first words of the header, the items, the strings.
abbrev blob : (base : ℕ) → List ℕ → Bytes
blob base items a =
    let bytes = be32 0xd00dfeed ++ be32 0 ++ be32 32 ++ be32 16 ++ strings ++ 0 ∷ items in
    at bytes (a - base)

-- A bank of 128 MiB at 0x40000000.
abbrev ram_tree : List Item
ram_tree =
    begins []
    ∷ begins memory_name
    ∷ property 0 reg_name (be32 0 ++ be32 0x40000000 ++ be32 0 ++ be32 0x8000000)
    ∷ ends
    ∷ ends
    ∷ []

abbrev ram_memory : Bytes
ram_memory = blob dtb_base (tree_bytes ram_tree)

-- A virtio place at 0xa000000 with its interrupt, and a second one.
abbrev pub drive_tree : List Item
drive_tree =
    begins []
    ∷ begins virtio_name
    ∷ property 4 interrupts_name (be32 0 ++ be32 16 ++ be32 1)
    ∷ property 0 reg_name (be32 0 ++ be32 0xa000000 ++ be32 0 ++ be32 512)
    ∷ ends
    ∷ begins virtio_name
    ∷ property 0 reg_name (be32 0 ++ be32 0xa000200 ++ be32 0 ++ be32 512)
    ∷ ends
    ∷ ends
    ∷ []

abbrev pub drive_memory : Bytes
drive_memory = blob virt_dtb_base (tree_bytes drive_tree)

get_total_ram_example : get_total_ram ram_memory 200 ≡ some 134217728
unfolding holds byte_at struct_block strings_block load_u32 bswap32
get_total_ram_example =
    get_total_ram-ram_of ram_memory ram_tree 200 refl
      (holds-Holds ram_memory (struct_block ram_memory) (tree_bytes ram_tree) refl) (ground arith)
      (ground arith) (omega arith)

get_drive_info_example :
    get_drive_info drive_memory 300 (λ i. 0) ≡ some (drive_of false drive_tree (λ i. 0))
unfolding holds byte_at virt_struct_block virt_strings_block load_u32 bswap32
get_drive_info_example =
    get_drive_info-drive_of drive_memory drive_tree 300 (λ i. 0) refl
      (holds-Holds drive_memory (virt_struct_block drive_memory) (tree_bytes drive_tree) refl)
      (ground arith) (ground arith) (omega arith)
