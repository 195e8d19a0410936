-- ===== src/X86/Vme/Sample.antt =====
-- An allocator that hands out one page after the other, and two address spaces.
use openperf_abstract_machin.Prelude.{
  ℕ, ◌+◌, ◌*◌, ◌/◌, ◌%◌, ◌^◌, ◌<◌, ◌≡◌, refl, arith, write, ltb, if◌then◌else◌,
}
use openperf_abstract_machin.X86.Vme.{Machine}
use openperf_abstract_machin.X86.Vme.Entries.{dir_entry, IsValid, Allocator}
use openperf_abstract_machin.X86.Vme.Map.{IsRequest}
use openperf_abstract_machin.X86.Vme.Space.Protect.{IsKernel}

abbrev pub next_pages : ℕ → ℕ → ℕ × ℕ
next_pages n h = if ltb h (2 ^ 32) then (h / 4096 * 4096, h + 4096) else (0, h)

abbrev pub page_supply : Allocator next_pages
page_supply = record {
  used = λ h q. q < h / 4096;
  aligned = λ h. ground arith;
  fits = λ h. ground arith;
  taken = λ h ne. ground arith;
  fresh = λ h q ne l. ground arith;
  kept = λ h q l. ground arith;
}

abbrev pub empty_space : Machine ℕ
empty_space = record { words = write (λ a. 0) 0x100 0x1007; pages = 0x2000 }

-- The space after the page at 0x4000_3000 has been mapped.
abbrev pub one_page : Machine ℕ
one_page = record {
  words = write (write (write (λ a. 0) 0x100 0x1007) 0x1400 0x2007) 0x200c 0x7_5007;
  pages = 0x3000;
}

pub empty_space-IsValid : IsValid (λ q. q < empty_space.pages / 4096) empty_space.words 0x100
empty_space-IsValid = record {
  present = refl;
  word = refl;
  own = omega arith;
  space_used = omega arith;
  dir_used = omega arith;
  table_used = λ i l p. ground arith;
  table_own = λ i l p. ground arith;
  apart = λ i j l k ne p q. ground arith;
}

one_page-only : (i : ℕ) → i < 1024 → dir_entry one_page.words 0x100 i % 2 ≡ 1 → i ≡ 256
one_page-only i l p = ground arith

pub one_page-IsValid : IsValid (λ q. q < one_page.pages / 4096) one_page.words 0x100
one_page-IsValid = record {
  present = refl;
  word = refl;
  own = omega arith;
  space_used = omega arith;
  dir_used = omega arith;
  table_used = λ i l p. let e = one_page-only i l p in rw e (omega arith);
  table_own = λ i l p. let e = one_page-only i l p in rw e (omega arith, omega arith);
  apart =
      λ i j l k ne p q. let e = one_page-only i l p in let f = one_page-only j k q in omega arith;
}

pub user_request : IsRequest 0x4000_3000 0x7_5000
user_request = record {
  above = omega arith;
  below = omega arith;
  va_page = refl;
  pa_page = refl;
  pa_fits = omega arith;
}

-- A kernel directory in page 1 with one table, in page 2.
abbrev pub boot_machine : Machine ℕ
boot_machine = record { words = write (write (λ a. 0) 0x1000 0x2003) 0x2008 0x2003; pages = 0x3000 }

boot_machine-first : (i : ℕ) → i < 1024 → boot_machine.words (4096 + 4 * i) % 2 ≡ 1 → i ≡ 0
boot_machine-first i l p = ground arith

pub boot_machine-IsKernel : IsKernel (λ q. q < boot_machine.pages / 4096) boot_machine.words 1 0x100
boot_machine-IsKernel = record {
  in_use = omega arith;
  elsewhere = omega arith;
  table_used = λ i l p. let e = boot_machine-first i l p in rw e (omega arith);
  table_elsewhere = λ i l p. let e = boot_machine-first i l p in rw e (omega arith);
  apart = λ i j l k ne p q.
      let e = boot_machine-first i l p in let f = boot_machine-first j k q in absurd (omega arith);
}
