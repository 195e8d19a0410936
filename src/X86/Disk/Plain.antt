-- ===== src/X86/Disk/Plain.antt =====
-- A disk that meets the laws, ready at the second look.
use Prim.Native.Nat.{bit_and}
use mathlib.Core.Path.{fun_ext}
use openperf_abstract_machin.Prelude.{
  ℕ, zero, suc, ◌+◌, ◌-◌, ◌/◌, ◌%◌, ◌≤◌, ◌<◌, ◌≡◌, ◌≢◌, inl, inr, refl, arith, Bool, Bool-cases,
  true, false, ◌&&◌, Memory, write, leb, ltb, ◌==◌, if◌then◌else◌, eq_false,
}
use openperf_abstract_machin.X86.Ports.{
  Ports, AtaView, Ata, digit, load_word, store_word, reached, selected,
}
use openperf_abstract_machin.X86.Disk.Sector.{digit-load_word}

pub record PlainDisk : Type 0 where
  pub registers : ℕ → ℕ
  pub code : ℕ
  pub sector : ℕ
  pub position : ℕ
  pub stored : Memory
  pub waits : Bool

abbrev pub plain_bytes : PlainDisk → Memory
plain_bytes d a = d.stored a % 256

abbrev pub plain_view : PlainDisk → AtaView
plain_view d = record {
  registers = d.registers;
  code = d.code;
  sector = d.sector;
  position = d.position;
  stored = plain_bytes d;
  busy = (if d.waits then 1 else 0);
}

abbrev pub plain_ports : Ports PlainDisk
plain_ports = record {
  inb = λ p d.
      if p == 0x1f7 then (if d.waits then 0x80 else 0x40, record d { waits = false }) else (0, d);
  inl = λ p d.
      (load_word (plain_bytes d) (reached (plain_view d)), record d { position = d.position + 1 });
  outb = λ p v d.
      if p == 0x1f7
      then record d { code = v; sector = selected d.registers; position = 0; waits = true }
      else record d { registers = write d.registers p v };
  outw = λ p v d. d;
  outl = λ p v d. record d {
    position = d.position + 1;
    stored = store_word (plain_bytes d) (reached (plain_view d)) v;
  };
}

pub plain_patient : (d : PlainDisk) → (plain_view d).busy ≤ 1
plain_patient d = ground arith

pub plain_ready :
    (d : PlainDisk) → (plain_view d).busy ≡ 0 → bit_and (plain_ports.inb 0x1f7 d).0 0xc0 ≡ 0x40
plain_ready d h = elim (Bool-cases d.waits) [ inl e ↦ absurd (ground arith) | inr e ↦ rw e refl ]

pub plain_not_ready :
    (d : PlainDisk) → (plain_view d).busy ≢ 0 → bit_and (plain_ports.inb 0x1f7 d).0 0xc0 ≢ 0x40
plain_not_ready d h = elim (Bool-cases d.waits) [
  | inl e ↦ rw e (omega arith)
  | inr e ↦ absurd (ground arith)
]

pub plain_polled :
    (d : PlainDisk)
    → plain_view (plain_ports.inb 0x1f7 d).1
      ≡ record (plain_view d) { busy = (plain_view d).busy - 1 }
plain_polled d = ground arith

pub plain_set_register :
    (d : PlainDisk) (p v : ℕ)
    → 0x1f2 ≤ p
    → p ≤ 0x1f6
    → v < 256
    → plain_view (plain_ports.outb p v d)
      ≡ record (plain_view d) { registers = write (plain_view d).registers p v }
plain_set_register d p v l h s = let ne : p ≢ 0x1f7 = omega arith in rw (eq_false ne) refl

pub plain_read :
    (d : PlainDisk) (k : ℕ)
    → k < 4
    → digit (plain_ports.inl 0x1f0 d).0 k ≡ plain_bytes d (reached (plain_view d) + k)
plain_read d k l = digit-load_word (plain_bytes d) (reached (plain_view d)) k l (λ b. omega arith)

digit_small : (v k : ℕ) → digit v k < 256
digit_small v zero = omega arith
digit_small v (suc k) = digit_small (v / 256) k

pub plain_write :
    (d : PlainDisk) (v : ℕ)
    → plain_bytes (plain_ports.outl 0x1f0 v d)
      ≡ store_word (plain_bytes d) (reached (plain_view d)) v
plain_write d v =
    fun_ext λ a. store_word_small (plain_bytes d) (reached (plain_view d)) v a (λ b. omega arith)
  where
    store_word_small :
        (m : Memory) (a v b : ℕ)
        → ((c : ℕ) → m c < 256)
        → store_word m a v b % 256 ≡ store_word m a v b
    store_word_small m a v b h = elim (Bool-cases (leb a b && ltb b (a + 4))) [
      | inl e ↦ rw e (omega (arith, digit_small v (b - a)))
      | inr e ↦ rw e (omega (arith, h b))
    ]

abbrev pub plain_disk : Ata plain_ports
plain_disk = record {
  view = plain_view;
  patience = 1;
  patient = plain_patient;
  bytes = λ d a. omega arith;
  ready = plain_ready;
  not_ready = plain_not_ready;
  polled = plain_polled;
  set_register = λ d p v l h s free. plain_set_register d p v l h s;
  command = λ d c k one lba free. (refl, refl, refl, refl);
  read_value = λ d k l s free is. plain_read d k s;
  read_moves = λ d l free is. (is, (λ _. free), refl, refl, refl);
  write_moves = λ d v l free is. (is, (λ _. free), refl, refl, plain_write d v);
}
