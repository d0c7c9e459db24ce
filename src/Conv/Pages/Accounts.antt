-- ===== src/Conv/Pages/Accounts.antt =====
-- conv_ftl.c: the counts of a block against the states of its pages.
use nvmevirt_hybrid.Prelude.{
  ℕ, zero, suc, ◌+◌, ◌-◌, ◌<◌, ◌≤◌, ◌≡◌, refl, sym, ap, ◌∙◌, arith, Bool, true, false, bit, some,
  List, [], ◌∷◌, length, get_elem?, set, count, replicate, length-set, count-set, count-le-length,
  get_elem?-lt-length, all-set, get_elem?-set_self, length-replicate, get_elem?-replicate, lt→ltb,
  le→leb, ==-refl,
}
use nvmevirt_hybrid.Prelude.Run.{ok}
use nvmevirt_hybrid.Ssd.{SsdParams}
use nvmevirt_hybrid.Conv.{NandBlock, NandPage, sec_free, PageStatus, pg_free, pg_invalid, pg_valid}
use nvmevirt_hybrid.Conv.Pages.{
  is_valid, is_invalid, is_free, ssd_init_nand_page, ssd_init_nand_blk, blk_page_valid,
  blk_page_invalid, free_pages, blk_free,
}

-- The counts are the numbers of valid and of invalid pages.
pub record IsBlock (sp : SsdParams) (b : NandBlock) : Type 0 where
  pub len : length b.pg ≡ sp.pgs_per_blk
  pub npgs_eq : b.npgs ≡ sp.pgs_per_blk
  pub vpc_eq : b.vpc ≡ count is_valid b.pg
  pub ipc_eq : b.ipc ≡ count is_invalid b.pg
  pub nsecs_eq : (i : ℕ) (p : NandPage) → get_elem? b.pg i ≡ some p → p.nsecs ≡ sp.secs_per_pg

-- What the set-up writes into a block and its pages besides: the sectors' states and the block's write
-- pointer.
pub record IsMade (sp : SsdParams) (b : NandBlock) : Type 0 where
  pub wp_eq : b.wp ≡ 0
  pub sec_eq :
      (i : ℕ) (p : NandPage) → get_elem? b.pg i ≡ some p → p.sec ≡ replicate sp.secs_per_pg sec_free

-- A page that fails the test keeps the count below the length.
count-lt :
    (t : NandPage → Bool) (ps : List NandPage) (i : ℕ) (p q : NandPage)
    → get_elem? ps i ≡ some p
    → t p ≡ false
    → t q ≡ true
    → count t ps < length ps
count-lt t ps i p q at fails passes =
    let trade = count-set t ps i p q at in
    let le = count-le-length t (set ps i q) in
    let len = length-set ps i q in
    let b0 : bit (t p) ≡ 0 = rw fails refl in
    let b1 : bit (t q) ≡ 1 = rw passes refl in omega (arith, trade, le, len, b0, b1)

-- Free and invalid pages are not valid, and so on.
status_bits :
    (p : NandPage)
    → ((p.status ≡ pg_free) → (is_valid p ≡ false) × (is_invalid p ≡ false) × (is_free p ≡ true))
      × ((p.status ≡ pg_valid) → (is_valid p ≡ true) × (is_invalid p ≡ false) × (is_free p ≡ false))
status_bits p = ((λ e. rw e (refl, refl, refl)), λ e. rw e (refl, refl, refl))

module _ (sp : SsdParams) (b : NandBlock) (v : IsBlock sp b) (i : ℕ) (p : NandPage) where
  -- A page that changes its status moves the counts by what it stood for and what it stands for.
  change-IsBlock :
      (s : PageStatus) (ipc vpc : ℕ)
      → get_elem? b.pg i ≡ some p
      → vpc + bit (is_valid p) ≡ b.vpc + bit (is_valid (record p { status = s }))
      → ipc + bit (is_invalid p) ≡ b.ipc + bit (is_invalid (record p { status = s }))
      → IsBlock sp (record b { pg = set b.pg i (record p { status = s }); ipc = ipc; vpc = vpc })
  change-IsBlock s ipc vpc at valid invalid =
      let p1 : NandPage = record p { status = s } in
      record {
        len = length-set b.pg i p1 ∙ v.len;
        npgs_eq = v.npgs_eq;
        vpc_eq = omega (arith, v.vpc_eq, count-set is_valid b.pg i p p1 at, valid);
        ipc_eq = omega (arith, v.ipc_eq, count-set is_invalid b.pg i p p1 at, invalid);
        nsecs_eq =
            all-set (λ (x : NandPage). x.nsecs ≡ sp.secs_per_pg) b.pg i p1 v.nsecs_eq
              (v.nsecs_eq i p at);
      }

  -- In a block whose counts are the numbers of its valid and invalid pages, a free page becomes valid:
  -- no assertion trips, the page is valid, and the counts are again those numbers.
  pub blk_page_valid-IsBlock :
      get_elem? b.pg i ≡ some p
      → p.status ≡ pg_free
      → (y : NandBlock) × (blk_page_valid sp b i ≡ ok y)
        × (get_elem? y.pg i ≡ some (record p { status = pg_valid }))
        × IsBlock sp y
  unfolding blk_page_valid
  blk_page_valid-IsBlock at is =
      let (n_valid, n_invalid, free) = (status_bits p).0 is in
      let room : b.vpc < sp.pgs_per_blk = omega (
        arith,
        v.vpc_eq,
        v.len,
        count-lt is_valid b.pg i p (record p { status = pg_valid }) at n_valid refl,
      ) in
      (
        record b { pg = set b.pg i (record p { status = pg_valid }); vpc = b.vpc + 1 },
        rw (at, free, lt→ltb b.vpc sp.pgs_per_blk room) refl,
        get_elem?-set_self b.pg i (record p { status = pg_valid })
            (get_elem?-lt-length b.pg i p at),
        change-IsBlock pg_valid b.ipc (b.vpc + 1) at (rw n_valid (omega arith))
            (rw n_invalid (omega arith)),
      )

  -- In a block whose counts are the numbers of its valid and invalid pages, a valid page becomes
  -- invalid: no assertion trips, the page is invalid, and the counts are again those numbers.
  blk_page_invalid-IsBlock :
      get_elem? b.pg i ≡ some p
      → p.status ≡ pg_valid
      → (y : NandBlock) × (blk_page_invalid sp b i ≡ ok y)
        × (get_elem? y.pg i ≡ some (record p { status = pg_invalid }))
        × IsBlock sp y
  unfolding blk_page_invalid
  blk_page_invalid-IsBlock at is =
      let (valid, n_invalid, n_free) = (status_bits p).1 is in
      let p1 : NandPage = record p { status = pg_invalid } in
      let room : b.ipc < sp.pgs_per_blk =
        omega (arith, v.ipc_eq, v.len, count-lt is_invalid b.pg i p p1 at n_invalid refl) in
      let one : bit (is_valid p) ≡ 1 = rw valid refl in
      let some_left : 0 < b.vpc = omega (arith, v.vpc_eq, count-set is_valid b.pg i p p1 at, one) in
      let most : b.vpc ≤ sp.pgs_per_blk =
        omega (arith, v.vpc_eq, v.len, count-le-length is_valid b.pg) in
      (
        record b { pg = set b.pg i p1; ipc = b.ipc + 1; vpc = b.vpc - 1 },
        rw
            (
              at,
              valid,
              lt→ltb b.ipc sp.pgs_per_blk room,
              lt→ltb 0 b.vpc some_left,
              le→leb b.vpc sp.pgs_per_blk most,
            )
            refl,
        get_elem?-set_self b.pg i p1 (get_elem?-lt-length b.pg i p at),
        change-IsBlock pg_invalid (b.ipc + 1) (b.vpc - 1) at (rw valid (omega (arith, some_left)))
            (rw n_invalid (omega arith)),
      )

module _ (sp : SsdParams) where
  -- The loop of mark_block_free over all pages.
  free_pages-ok :
      (n : ℕ) (ps : List NandPage)
      → length ps ≡ n
      → ((i : ℕ) (p : NandPage) → get_elem? ps i ≡ some p → p.nsecs ≡ sp.secs_per_pg)
      → ((i : ℕ) (p : NandPage)
          → get_elem? ps i ≡ some p
          → p.sec ≡ replicate sp.secs_per_pg sec_free)
      → free_pages sp n ps ≡ ok (replicate n (ssd_init_nand_page sp))
  unfolding free_pages ssd_init_nand_page
  free_pages-ok zero [] len secs made = refl
  free_pages-ok zero (p ∷ ps) len secs made = absurd (omega (arith, len))
  free_pages-ok (suc n) [] len secs made = absurd (omega (arith, len))
  free_pages-ok (suc n) (p ∷ ps) len secs made =
      rw
        (
          secs 0 p refl,
          made 0 p refl,
          ==-refl sp.secs_per_pg,
          free_pages-ok n ps (omega (arith, len)) (λ i. secs (suc i)) (λ i. made (suc i)),
        )
        refl

  count-replicate :
      (t : NandPage → Bool) (n : ℕ) (p : NandPage) → t p ≡ false → count t (replicate n p) ≡ 0
  count-replicate t zero p h = refl
  count-replicate t (suc n) p h = rw (h, count-replicate t n p h) refl

  fresh-IsBlock :
      (n : ℕ)
      → IsBlock sp (record {
        pg = replicate sp.pgs_per_blk (ssd_init_nand_page sp);
        npgs = sp.pgs_per_blk;
        ipc = 0;
        vpc = 0;
        erase_cnt = n;
        wp = 0;
      })
  unfolding ssd_init_nand_page
  fresh-IsBlock n = record {
    len = length-replicate sp.pgs_per_blk (ssd_init_nand_page sp);
    npgs_eq = refl;
    vpc_eq = sym (count-replicate is_valid sp.pgs_per_blk (ssd_init_nand_page sp) refl);
    ipc_eq = sym (count-replicate is_invalid sp.pgs_per_blk (ssd_init_nand_page sp) refl);
    nsecs_eq = λ i p at.
        ap (λ (x : NandPage). x.nsecs)
          (get_elem?-replicate sp.pgs_per_blk i (ssd_init_nand_page sp) p at);
  }

  -- The block that the set-up makes, and those that pages of it becoming valid or invalid lead to.
  ssd_init_nand_blk-IsMade : IsMade sp (ssd_init_nand_blk sp)
  unfolding ssd_init_nand_blk ssd_init_nand_page
  ssd_init_nand_blk-IsMade = record {
    wp_eq = refl;
    sec_eq = λ i p at.
        ap (λ (x : NandPage). x.sec)
          (get_elem?-replicate sp.pgs_per_blk i (ssd_init_nand_page sp) p at);
  }

  change-IsMade :
      (b : NandBlock) (i : ℕ) (p : NandPage) (s : PageStatus) (ipc vpc : ℕ)
      → get_elem? b.pg i ≡ some p
      → IsMade sp b
      → IsMade sp (record b { pg = set b.pg i (record p { status = s }); ipc = ipc; vpc = vpc })
  change-IsMade b i p s ipc vpc at v = record {
    wp_eq = v.wp_eq;
    sec_eq =
        all-set (λ (x : NandPage). x.sec ≡ replicate sp.secs_per_pg sec_free) b.pg i
          (record p { status = s }) v.sec_eq (v.sec_eq i p at);
  }

  -- Freeing a block whose counts are exact, whose pages all have the parameters' number of sectors, and
  -- whose sectors' states and write pointer are those that the set-up wrote, trips no assertion and
  -- makes it the block that ssd_init_nand_blk sets up, but for the count of erasures, which goes up
  -- by one; the counts of that block are the numbers of its valid and invalid pages.
  pub blk_free-IsBlock :
      (b : NandBlock)
      → IsBlock sp b
      → IsMade sp b
      → (blk_free sp b ≡ ok (record (ssd_init_nand_blk sp) { erase_cnt = b.erase_cnt + 1 }))
        × IsBlock sp (record (ssd_init_nand_blk sp) { erase_cnt = b.erase_cnt + 1 })
  unfolding blk_free ssd_init_nand_blk
  blk_free-IsBlock b v made = (
    rw
        (
          free_pages-ok sp.pgs_per_blk b.pg v.len v.nsecs_eq made.sec_eq,
          v.npgs_eq,
          made.wp_eq,
          ==-refl sp.pgs_per_blk,
        )
        refl,
    fresh-IsBlock (b.erase_cnt + 1),
  )
