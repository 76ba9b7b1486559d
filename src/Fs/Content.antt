-- ===== src/Fs/Content.antt =====
-- `vfs_read` after `vfs_write` in src/kernel/fs.cpp.
use trieternal_x_os.Base.{
  ℕ, zero, suc, ◌+◌, ◌-◌, ◌^◌, ◌<◌, ◌≡◌, ◌≢◌, inl, inr, refl, ◌∙◌, ap, true, false, not, ◌&&◌, ◌||◌,
  arith, ltb, leb, ◌==◌, if◌then◌else◌, Bool-cases, update, eq→==, copy_from, copy_from_lem, ne→==,
  append_from,
}
use trieternal_x_os.Base.Words.{add32}
use trieternal_x_os.Base.Int.{ℤ, pos}
use trieternal_x_os.Fs.{Node, Allocator, Fs, is_used, is_dir, null, written, write, read}

append_from_lem :
    (n i off : ℕ) (src dst : ℕ → ℕ) (j : ℕ)
    → append_from n i off src dst j
      ≡ (if leb (off + i) j && ltb j (off + i + n) then src (j - off) else dst j)
unfolding append_from
append_from_lem zero i off src dst j = ground arith
append_from_lem (suc n) i off src dst j = elim (Bool-cases (j == off + i)) [
  | inl e ↦
      let here : j - off ≡ i = ground arith in
      ground
        (arith, append_from_lem n (i + 1) off src (update dst (off + i) (src i)) j, ap src here)
  | inr e ↦ ground (arith, append_from_lem n (i + 1) off src (update dst (off + i) (src i)) j)
]

-- The bytes of the old content and then those of the caller.
abbrev pub appended : ℕ → (ℕ → ℕ) → (ℕ → ℕ) → ℕ → ℕ
appended size old src j = if ltb j size then old j else src (j - size)

written_lem :
    (node : Node) (blocks : ℕ → ℕ → ℕ) (p count : ℕ) (src : ℕ → ℕ) (j : ℕ)
    → (node.block ≡ null → node.size ≡ 0)
    → node.size + count < 2 ^ 32
    → j < node.size + count
    → written node blocks p src count j ≡ appended node.size (blocks node.block) src j
unfolding written
written_lem node blocks p count src j empty fits lt = elim (Bool-cases (node.block == null)) [
  | inl z ↦
      let none_yet : node.size ≡ 0 = empty (ground arith) in
      rw z (ground (arith, append_from_lem count 0 node.size src (blocks p) j))
  | inr nz ↦ rw nz (
      ground (
        arith,
        append_from_lem count 0 node.size src (copy_from node.size 0 (blocks node.block) (blocks p))
            j,
        copy_from_lem node.size 0 (blocks node.block) (blocks p) j,
      ))
]

module _ {V : Type 0} (ops : Allocator V) (fd count : ℕ) (src : ℕ → ℕ) (fs : Fs V) where
  abbrev node : Node
  node = fs.nodes fd

  -- The block that the heap gives for the new content.
  abbrev pub new_block : ℕ
  new_block = (ops.kmalloc (add32 (add32 node.size count) 1) fs.heap).0

  -- The file `fd` can be written: it is there, it is no directory, and the heap has a block.
  pub record IsWritable : Type 0 where
    pub there : fd < fs.vfs_count
    pub in_use : is_used node ≡ true
    pub file : is_dir node ≡ false
    pub empty : node.block ≡ null → node.size ≡ 0
    pub block : new_block ≢ null
    pub fits : node.size + count < 2 ^ 31

  -- What a `vfs_read` of at most `n` bytes returns after the write.
  pub record ReadsBack (buf : ℕ → ℕ) (n : ℕ) (out : ℤ × (ℕ → ℕ)) : Type 0 where
    pub result : out.0 ≡ pos (if ltb (node.size + count) n then node.size + count else n)
    pub bytes :
        (j : ℕ)
        → out.1 j ≡ (
            if ltb j n && ltb j (node.size + count)
            then appended node.size (fs.blocks node.block) src j
            else buf j)

  -- The nodes and the blocks of all other files are as before.
  pub record OthersKept (out : Fs V) : Type 0 where
    pub nodes : (i : ℕ) → i ≢ fd → out.nodes i ≡ fs.nodes i
    pub blocks : (p : ℕ) → p ≢ new_block → (j : ℕ) → out.blocks p j ≡ fs.blocks p j

  module _ (w : IsWritable) where
    guards_off : (leb fs.vfs_count fd || not (is_used node) || is_dir node) ≡ false
    guards_off = rw (w.in_use, w.file) (ground arith)

    -- The table after the write.
    abbrev stored : Fs V
    stored = record fs {
      nodes = update fs.nodes fd (record node { block = new_block; size = add32 node.size count });
      blocks = update fs.blocks new_block (written node fs.blocks new_block src count);
      heap =
          let heap = (ops.kmalloc (add32 (add32 node.size count) 1) fs.heap).1 in
          if node.block == null then heap else ops.kfree node.block heap;
    }

    write-stored : write ops (pos fd) src count fs ≡ (pos count, stored)
    unfolding write
    write-stored =
        rw (guards_off, write)
          (rw (ne→== new_block null w.block, write)
            (ap (λ r. (r, stored)) (ground (arith, w.fits))))

    read-stored : (buf : ℕ → ℕ) (n : ℕ) → ReadsBack buf n (read stored (pos fd) buf n)
    unfolding read
    read-stored buf n =
        let size : add32 node.size count ≡ node.size + count = omega (arith, w.fits) in
        rw (same fd (record node { block = new_block; size = add32 node.size count }), read)
          (rw (guards_read, read)
            (rw (ne→== new_block null w.block, read)
              (rw size (
                rw (eq→== new_block new_block refl)
                  (record { result = ground (arith, w.fits); bytes = λ j. bytes_lem j })))))
      where
        same : (i : ℕ) (n : Node) → update fs.nodes i n i ≡ n
        same i n = ground arith

        guards_read : (leb fs.vfs_count fd || not (is_used node)) ≡ false
        guards_read = rw (w.in_use) (ground (arith, w.there))

        bytes_lem :
            (j : ℕ)
            → copy_from
                (if ltb (node.size + count) n then node.size + count else n)
                0
                (written node fs.blocks new_block src count)
                buf
                j
              ≡ (if ltb j n && ltb j (node.size + count)
                  then appended node.size (fs.blocks node.block) src j
                  else buf j)
        bytes_lem j = elim (Bool-cases (ltb j n && ltb j (node.size + count))) [
          | inl t ↦
              let w' =
                written_lem node fs.blocks new_block count src j w.empty (omega (arith, w.fits))
                  (ground arith) in
              rw t (
                copy_from_lem (if ltb (node.size + count) n then node.size + count else n) 0
                  (written node fs.blocks new_block src count) buf j
                ∙ taken t
                ∙ w')
          | inr f ↦ rw f (
              copy_from_lem (if ltb (node.size + count) n then node.size + count else n) 0
                (written node fs.blocks new_block src count) buf j
              ∙ left f)
        ]
          where
            taken :
                (ltb j n && ltb j (node.size + count)) ≡ true
                → (if leb 0 j
                      && ltb j (0 + (if ltb (node.size + count) n then node.size + count else n))
                    then written node fs.blocks new_block src count j
                    else buf j)
                  ≡ written node fs.blocks new_block src count j
            taken t = ground arith

            left :
                (ltb j n && ltb j (node.size + count)) ≡ false
                → (if leb 0 j
                      && ltb j (0 + (if ltb (node.size + count) n then node.size + count else n))
                    then written node fs.blocks new_block src count j
                    else buf j)
                  ≡ buf j
            left f = ground arith

    -- A write to a file for whose new content the heap has a block returns its length; a read then
    -- gives the old content with the written bytes behind it, up to the length asked for, and leaves
    -- the rest of the caller's buffer; other nodes and the other blocks are as before.
    pub read-write :
        (buf : ℕ → ℕ) (n : ℕ)
        → ((write ops (pos fd) src count fs).0 ≡ pos count)
          × ReadsBack buf n (read (write ops (pos fd) src count fs).1 (pos fd) buf n)
          × OthersKept (write ops (pos fd) src count fs).1
    read-write buf n = rw write-stored (
      refl,
      read-stored buf n,
      record { nodes = λ i ne. ground arith; blocks = λ p ne j. ground arith },
    )
