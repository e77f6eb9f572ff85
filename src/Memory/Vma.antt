-- ===== src/Memory/Vma.antt =====
-- The regions of an address space, src/memory/vmm/vma.c and src/include/mm/vma.h.
-- The linked list from `mm->vma` is a list of regions. A file is a number, and its reference count
-- is a function of it; what `file_put` does at zero is not modelled here. Whether `kzalloc` and
-- `mmu_clone_context` succeed is an argument. Addresses are 32 bits, a file offset is the bit
-- pattern of its 64 bits. The spinlock is held by one caller at a time, so it leaves no trace.
pub mod Order
pub mod Slot
pub mod Lookup
pub mod Refs
pub mod Dup
mod Tests
use wey_os.Base.{
  ℕ, zero, suc, ◌+◌, ◌-◌, ◌%◌, ◌^◌, Bool, true, false, ◌&&◌, Option, none, some, List, [], ◌∷◌,
  ◌++◌, ltb, leb, ◌==◌, if◌then◌else◌, bit_and, take, drop, Result, ok, err, einval, enomem, enoent,
}

abbrev pub word : ℕ
word = 2 ^ 32

abbrev pub page_size : ℕ
page_size = 4096

-- `struct vm_region`, without its link and the counter that nothing reads.
pub record VmRegion : Type 0 where
  pub start : ℕ
  pub end : ℕ
  pub mem_flags : ℕ
  pub prot_flags : ℕ
  pub file : Option ℕ
  pub file_offset : ℕ

-- `struct mm_struct`; a paging context is a number.
pub record MmStruct : Type 0 where
  pub ctx : Option ℕ
  pub vma : List VmRegion
  pub brk_start : ℕ
  pub brk : ℕ
  pub refcount : ℕ

-- The reference count of each file.
abbrev pub Refs : Type 0
Refs = ℕ → ℕ

-- `file_get` and the decrement of `file_put`, for a file pointer that may be NULL.
unfoldable pub file_get : Option ℕ → Refs → Refs
file_get none refs g = refs g
file_get (some f) refs g = if f == g then refs g + 1 else refs g

unfoldable pub file_put : Option ℕ → Refs → Refs
file_put none refs g = refs g
file_put (some f) refs g = if f == g then refs g - 1 else refs g

-- `vma_alloc`, when `kzalloc` succeeds.
abbrev pub fresh : MmStruct
fresh = record { ctx = none; vma = []; brk_start = 0; brk = 0; refcount = 1 }

-- `ALIGN_DOWN(v, PAGE_SIZE)` and `ALIGN_UP(v, PAGE_SIZE)`
pub align_down : ℕ → ℕ
align_down v = bit_and v (word - page_size)

pub align_up : ℕ → ℕ
unfolding align_down
align_up v = align_down ((v + page_size - 1) % word)

-- The walk of `vma_add`: how many regions lie before the new one, or an overlap.
pub slot : ℕ → ℕ → List VmRegion → Option ℕ
slot start end [] = some 0
slot start end (r ∷ rs) =
    let rest = slot start end rs in
    if ltb r.start end
    then (if ltb start r.end && ltb r.start end
        then none
        else elim rest [ none ↦ none | some n ↦ some (suc n) ])
    else some 0

-- What the caller asks of `vma_add`.
pub record Request : Type 0 where
  pub start : ℕ
  pub end : ℕ
  pub mem_flags : ℕ
  pub prot_flags : ℕ
  pub file : Option ℕ
  pub file_offset : ℕ

pub aligned_offset : Request → ℕ
unfolding align_down
aligned_offset q = elim q.file [
  | none ↦ q.file_offset
  | some _ ↦ (q.file_offset + 2 ^ 64 - (q.start - align_down q.start)) % 2 ^ 64
]

pub region_of : Request → VmRegion
unfolding align_down align_up aligned_offset
region_of q = record {
  start = align_down q.start;
  end = align_up q.end;
  mem_flags = q.mem_flags;
  prot_flags = q.prot_flags;
  file = q.file;
  file_offset = aligned_offset q;
}

-- `prev->next = new_region; new_region->next = curr`, `n` regions into the list.
pub link : ℕ → VmRegion → List VmRegion → List VmRegion
link n r rs = take n rs ++ (r ∷ drop n rs)

-- `vma_add`; `memory` says whether `kzalloc` succeeds.
pub add : Bool → MmStruct → Refs → Request → Result VmRegion × MmStruct × Refs
unfolding link
add memory mm refs q =
    if leb q.end q.start
    then (err einval, mm, refs)
    else elim (slot (region_of q).start (region_of q).end mm.vma) [
      | none ↦ (err einval, mm, refs)
      | some n ↦
          if memory
          then (
            ok (region_of q),
            record mm { vma = link n (region_of q) mm.vma },
            file_get q.file refs,
          )
          else (err enomem, mm, refs)
    ]

-- The loop of `vma_lookup`.
pub find : ℕ → List VmRegion → Option VmRegion
find addr [] = none
find addr (r ∷ rs) =
    let rest = find addr rs in
    if leb r.start addr then (if ltb addr r.end then some r else rest) else none

pub lookup : MmStruct → ℕ → Option VmRegion
unfolding find
lookup mm addr = find addr mm.vma

abbrev pub hit : ℕ → VmRegion → Bool
hit addr r = leb r.start addr && ltb addr r.end

-- The loop of `vma_remove`: the list without the first region that holds the address.
pub unlink : ℕ → List VmRegion → Option (VmRegion × List VmRegion)
unlink addr [] = none
unlink addr (r ∷ rs) =
    let rest = unlink addr rs in
    if hit addr r then some (r, rs) else elim rest [ none ↦ none | some (q, qs) ↦ some (q, r ∷ qs) ]

pub remove : MmStruct → Refs → ℕ → Result (Unit {0}) × MmStruct × Refs
remove mm refs addr = elim (unlink addr mm.vma) [
  | none ↦ (err enoent, mm, refs)
  | some (r, rest) ↦ (ok tt, record mm { vma = rest }, file_put r.file refs)
]

-- The loop of `vma_clean`.
pub put_all : List VmRegion → Refs → Refs
put_all [] refs = refs
put_all (r ∷ rs) refs = put_all rs (file_put r.file refs)

pub clean : MmStruct → Refs → MmStruct × Refs
unfolding put_all
clean mm refs = (record mm { vma = [] }, put_all mm.vma refs)

-- `vma_destroy`: the regions go first; the context and the structure itself are then given back.
pub destroy : MmStruct → Refs → Refs
unfolding clean
destroy mm refs = elim mm.vma [ [] ↦ refs | _ ∷ _ ↦ (clean mm refs).1 ]

-- A region as `vma_dup` hands it to `vma_add`.
abbrev pub request_of : VmRegion → Request
request_of r = record {
  start = r.start;
  end = r.end;
  mem_flags = r.mem_flags;
  prot_flags = r.prot_flags;
  file = r.file;
  file_offset = r.file_offset;
}

-- The test after each `vma_add` of the loop: go on, or jump to `out_free`.
abbrev pub dup_next :
    Result VmRegion → MmStruct → Refs → Bool × MmStruct × Refs → Bool × MmStruct × Refs
dup_next (ok _) copy refs rest = rest
dup_next (err _) copy refs rest = (false, copy, refs)

-- The loop of `vma_dup`. `memory` answers the `kzalloc` of each region in turn; `none` is the jump
-- to `out_free`, with the copy so far.
pub dup_from : (ℕ → Bool) → MmStruct → Refs → List VmRegion → Bool × MmStruct × Refs
dup_from memory copy refs [] = (true, copy, refs)
dup_from memory copy refs (r ∷ rs) =
    let (res, copy', refs') = add (memory 0) copy refs (request_of r) in
    let rest = dup_from (λ n. memory (suc n)) copy' refs' rs in dup_next res copy' refs' rest

-- `vma_dup`, after a `vma_alloc` that succeeds; `cloned` is what `mmu_clone_context` returns.
unfoldable pub dup : (ℕ → Bool) → Option ℕ → MmStruct → Refs → Option MmStruct × Refs
dup memory cloned mm refs =
    let (done, copy, refs') = dup_from memory fresh refs mm.vma in
    if done
    then elim cloned [
      | none ↦ (none, destroy copy refs')
      | some c ↦
          (some (record copy { ctx = some c; brk = mm.brk; brk_start = mm.brk_start }), refs')
    ]
    else (none, destroy copy refs')
