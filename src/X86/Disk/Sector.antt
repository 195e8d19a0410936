-- ===== src/X86/Disk/Sector.antt =====
-- The transfer of one sector by the routines of am/src/x86/qemu/ioe.c, behind the laws of the disk.
use Prim.Native.Nat.{bit_or}
use native.Mathlib.Decide.{ℕ_discrete, dec_lt}
use openperf_abstract_machin.Prelude.{
  ℕ, zero, suc, ◌+◌, ◌-◌, ◌*◌, ◌/◌, ◌%◌, ◌^◌, ◌≤◌, ◌<◌, ◌≡◌, ◌⊎◌, ◌∙◌, refl, ap, sym, arith, true,
  false, ◌&&◌, some, Memory, write, leb, ltb, eq_true, eq_false,
}
use openperf_abstract_machin.Prelude.Bits.{bit_or_fields_right}
use openperf_abstract_machin.X86.Ports.{Ports, Ata, digit, load_word, store_word, reached, selected}
use openperf_abstract_machin.X86.Disk.{wait_disk, start_transfer, read_words, write_words}

store_word-here : (m : Memory) (a v k : ℕ) → k < 4 → store_word m a v (a + k) ≡ digit v k
store_word-here m a v k l =
    let back : a + k - a ≡ k = omega arith in
    let test : (leb a (a + k) && ltb (a + k) (a + 4)) ≡ true = ground arith in rw (test, back) refl

store_word-away : (m : Memory) (a v b : ℕ) → (b < a) ⊎ (a + 4 ≤ b) → store_word m a v b ≡ m b
store_word-away m a v b h =
    let test : (leb a b && ltb b (a + 4)) ≡ false = ground arith in rw test refl

pub digit-load_word :
    (m : Memory) (a k : ℕ) → k < 4 → ((b : ℕ) → m b < 256) → digit (load_word m a) k ≡ m (a + k)
digit-load_word m a zero l h = let e : a + 0 ≡ a = omega arith in rw e (omega (arith, h a))
digit-load_word m a (suc zero) l h = omega (arith, h a, h (a + 1))
digit-load_word m a (suc (suc zero)) l h = omega (arith, h a, h (a + 1), h (a + 2))
digit-load_word m a (suc (suc (suc zero))) l h = omega (arith, h a, h (a + 1), h (a + 2), h (a + 3))
digit-load_word m a (suc (suc (suc (suc k)))) l h = absurd (omega arith)

module _ {D : Type 0} (ports : Ports D) (ata : Ata ports) where
  -- The disk is ready, and the transfer and the bytes on it are those of before.
  pub record Waited (d d' : D) : Type 0 where
    pub free : (ata.view d').busy ≡ 0
    pub code : (ata.view d').code ≡ (ata.view d).code
    pub sector : (ata.view d').sector ≡ (ata.view d).sector
    pub position : (ata.view d').position ≡ (ata.view d).position
    pub stored : (ata.view d').stored ≡ (ata.view d).stored

  pub wait_disk_lem :
      (fuel : ℕ) (d : D)
      → (ata.view d).busy < fuel
      → (d' : D) × (wait_disk ports fuel d ≡ some d') × Waited d d'
  unfolding wait_disk
  wait_disk_lem zero d h = absurd (omega arith)
  wait_disk_lem (suc fuel) d h =
      let next = (ports.inb 0x1f7 d).1 in
      let view = ata.polled d in
      elim (ℕ_discrete (ata.view d).busy 0) [
        | yes e ↦ (
          next,
          rw (eq_true (ata.ready d e)) refl,
          record {
            free = ap (λ v. v.busy) view ∙ omega arith;
            code = ap (λ v. v.code) view;
            sector = ap (λ v. v.sector) view;
            position = ap (λ v. v.position) view;
            stored = ap (λ v. v.stored) view;
          },
        )
        | no ne ↦
            let fewer : (ata.view next).busy ≡ (ata.view d).busy - 1 = ap (λ v. v.busy) view in
            let (d', runs, w) = wait_disk_lem fuel next (omega arith) in
            (
              d',
              rw (eq_false (ata.not_ready d ne)) runs,
              record {
                free = w.free;
                code = w.code ∙ ap (λ v. v.code) view;
                sector = w.sector ∙ ap (λ v. v.sector) view;
                position = w.position ∙ ap (λ v. v.position) view;
                stored = w.stored ∙ ap (λ v. v.stored) view;
              },
            )
      ]

  -- The registers, the bytes and the status behind one more write to a register.
  sequel :
      (d' d : D) (v p : ℕ) {r : ℕ → ℕ} {m : Memory}
      → ata.view d' ≡ record (ata.view d) { registers = write (ata.view d).registers p v }
      → ((ata.view d).registers ≡ r) × ((ata.view d).stored ≡ m) × ((ata.view d).busy ≡ 0)
      → ((ata.view d').registers ≡ write r p v)
        × ((ata.view d').stored ≡ m)
        × ((ata.view d').busy ≡ 0)
  sequel d' d v p e (er, em, eb) = (
    ap (λ v. v.registers) e ∙ ap (λ r. write r p v) er,
    ap (λ v. v.stored) e ∙ em,
    ap (λ v. v.busy) e ∙ eb,
  )

  pub start_transfer_lem :
      (command blkno : ℕ) (d : D)
      → (command ≡ 0x20) ⊎ (command ≡ 0x30)
      → blkno < 2 ^ 28
      → (ata.view d).busy ≡ 0
      → let v = ata.view (start_transfer ports command blkno d) in
        (v.code ≡ command)
        × (v.sector ≡ blkno)
        × (v.position ≡ 0)
        × (v.stored ≡ (ata.view d).stored)
  unfolding start_transfer
  start_transfer_lem command blkno d c l free =
      let drive = bit_or (blkno / 2 ^ 24) 0xe0 % 256 in
      let d2 = ports.outb 0x1f2 1 d in
      let d3 = ports.outb 0x1f3 (blkno % 256) d2 in
      let d4 = ports.outb 0x1f4 (blkno / 2 ^ 8 % 256) d3 in
      let d5 = ports.outb 0x1f5 (blkno / 2 ^ 16 % 256) d4 in
      let d6 = ports.outb 0x1f6 drive d5 in
      let s2 =
        sequel d2 d 1 0x1f2
          (ata.set_register d 0x1f2 1 (omega arith) (omega arith) (omega arith) free)
          (refl, refl, free) in
      let s3 =
        sequel d3 d2 (blkno % 256) 0x1f3
          (ata.set_register d2 0x1f3 (blkno % 256) (omega arith) (omega arith) (omega arith) s2.2)
          s2 in
      let s4 =
        sequel d4 d3 (blkno / 2 ^ 8 % 256) 0x1f4
          (ata.set_register d3 0x1f4 (blkno / 2 ^ 8 % 256) (omega arith) (omega arith) (omega arith)
            s3.2)
          s3 in
      let s5 =
        sequel d5 d4 (blkno / 2 ^ 16 % 256) 0x1f5
          (ata.set_register d4 0x1f5 (blkno / 2 ^ 16 % 256) (omega arith) (omega arith)
            (omega arith) s4.2)
          s4 in
      let all =
        sequel d6 d5 drive 0x1f6
          (ata.set_register d5 0x1f6 drive (omega arith) (omega arith) (omega arith) s5.2) s5 in
      let high : drive ≡ 224 + blkno / 2 ^ 24 =
        omega (arith, bit_or_fields_right 4 14 (blkno / 2 ^ 24) (omega arith)) in
      let one : (ata.view d6).registers 0x1f2 ≡ 1 = ap (λ r. r 0x1f2) all.0 in
      let lba_mode : (ata.view d6).registers 0x1f6 / 16 ≡ 14 =
        ap (λ r. r 0x1f6 / 16) all.0 ∙ omega arith in
      let sector : selected (ata.view d6).registers ≡ blkno = ap selected all.0 ∙ omega arith in
      let (is, s, p, m) = ata.command d6 command c one lba_mode all.2 in
      (is, s ∙ sector, p, m ∙ all.1)

  -- The words that have been read.
  pub record ReadIn (n ptr : ℕ) (m : Memory) (d : D) (m' : Memory) (d' : D) : Type 0 where
    pub inside : (k : ℕ) → k < 4 * n → m' (ptr + k) ≡ (ata.view d).stored (reached (ata.view d) + k)
    pub outside : (a : ℕ) → (a < ptr) ⊎ (ptr + 4 * n ≤ a) → m' a ≡ m a
    pub same_stored : (ata.view d').stored ≡ (ata.view d).stored

  pub read_words_lem :
      (n ptr : ℕ) (m : Memory) (d : D)
      → (ata.view d).position + n ≤ 128
      → ((ata.view d).position < 128 → (ata.view d).busy ≡ 0)
      → (ata.view d).code ≡ 0x20
      → let (m', d') = read_words ports n ptr m d in ReadIn n ptr m d m' d'
  unfolding read_words
  read_words_lem zero ptr m d h free is = record {
    inside = λ k l. absurd (omega arith);
    outside = λ a o. refl;
    same_stored = refl;
  }
  read_words_lem (suc n) ptr m d h free is =
      let v = (ports.inl 0x1f0 d).0 in
      let d1 = (ports.inl 0x1f0 d).1 in
      let m1 = store_word m ptr v in
      let now = free (omega arith) in
      let (is1, free1, sector, position, stored) = ata.read_moves d (omega arith) now is in
      let ih = read_words_lem n (ptr + 4) m1 d1 (omega arith) free1 is1 in
      record {
        inside = λ k l. elim (dec_lt k 4) [
          | yes low ↦
              ih.outside (ptr + k) (omega arith)
              ∙ store_word-here m ptr v k low
              ∙ ata.read_value d k (omega arith) low now is
          | no high ↦
              let at : ptr + 4 + (k - 4) ≡ ptr + k = omega arith in
              let from : reached (ata.view d1) + (k - 4) ≡ reached (ata.view d) + k = omega arith in
              ap (read_words ports n (ptr + 4) m1 d1).0 (sym at)
              ∙ ih.inside (k - 4) (omega arith)
              ∙ ap (λ (s : Memory). s (reached (ata.view d1) + (k - 4))) stored
              ∙ ap (ata.view d).stored from
        ];
        outside = λ a o. ih.outside a (omega arith) ∙ store_word-away m ptr v a (omega arith);
        same_stored = ih.same_stored ∙ stored;
      }

  -- The words that have been written.
  pub record Written (n ptr : ℕ) (m : Memory) (d d' : D) : Type 0 where
    pub inside : (k : ℕ) → k < 4 * n → (ata.view d').stored (reached (ata.view d) + k) ≡ m (ptr + k)
    pub outside :
        (a : ℕ)
        → (a < reached (ata.view d)) ⊎ (reached (ata.view d) + 4 * n ≤ a)
        → (ata.view d').stored a ≡ (ata.view d).stored a

  pub write_words_lem :
      (n ptr : ℕ) (m : Memory) (d : D)
      → (ata.view d).position + n ≤ 128
      → ((ata.view d).position < 128 → (ata.view d).busy ≡ 0)
      → (ata.view d).code ≡ 0x30
      → ((a : ℕ) → m a < 256)
      → Written n ptr m d (write_words ports n ptr m d)
  unfolding write_words
  write_words_lem zero ptr m d h free is b = record {
    inside = λ k l. absurd (omega arith);
    outside = λ a o. refl;
  }
  write_words_lem (suc n) ptr m d h free is b =
      let v = load_word m ptr in
      let d1 = ports.outl 0x1f0 v d in
      let (is1, free1, sector, position, stored) =
        ata.write_moves d v (omega arith) (free (omega arith)) is in
      let ih = write_words_lem n (ptr + 4) m d1 (omega arith) free1 is1 b in
      let further : reached (ata.view d1) ≡ reached (ata.view d) + 4 = omega arith in
      record {
        inside = λ k l. elim (dec_lt k 4) [
          | yes low ↦
              ih.outside (reached (ata.view d) + k) (omega arith)
              ∙ ap (λ (s : Memory). s (reached (ata.view d) + k)) stored
              ∙ store_word-here (ata.view d).stored (reached (ata.view d)) v k low
              ∙ digit-load_word m ptr k low b
          | no high ↦
              let at : ptr + 4 + (k - 4) ≡ ptr + k = omega arith in
              let from : reached (ata.view d1) + (k - 4) ≡ reached (ata.view d) + k = omega arith in
              ap (ata.view (write_words ports n (ptr + 4) m d1)).stored (sym from)
              ∙ ih.inside (k - 4) (omega arith)
              ∙ ap m at
        ];
        outside = λ a o.
            ih.outside a (omega arith)
            ∙ ap (λ (s : Memory). s a) stored
            ∙ store_word-away (ata.view d).stored (reached (ata.view d)) v a (omega arith);
      }
