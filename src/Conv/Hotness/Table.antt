-- ===== src/Conv/Hotness/Table.antt =====
-- conv_ftl.c: get_hotness_entry against the map from page numbers to entries that it keeps.
use nvmevirt_hybrid.Prelude.{
  ℕ, ◌<◌, ◌≡◌, ◌≢◌, refl, sym, ap, ◌∙◌, arith, ◌⊎◌, inl, inr, none, some, List, get_elem?, set,
  length-set, get_elem?-set_self, get_elem?-set_ne, some_injective, get_elem?-lt-length,
}
use nvmevirt_hybrid.Prelude.Run.{ok}
use nvmevirt_hybrid.Prelude.Div.{lt-trichotomy}
use nvmevirt_hybrid.Conv.{PageHotness, invalid_lpn}
use nvmevirt_hybrid.Conv.Hotness.{find_entry, fresh_entry}
use nvmevirt_hybrid.Conv.Hotness.Probe.{
  slot, IsOther, IsFirst, IsTable, slot-lt, find_entry-Ends, round_of,
}

abbrev pub IsUsed : List PageHotness → ℕ → Type 0
IsUsed t j = (e : PageHotness) × (get_elem? t j ≡ some e) × (e.lpn ≢ invalid_lpn)

-- Entry `j` of the table is `e`, for page `l`.
abbrev pub Holds : List PageHotness → ℕ → ℕ → PageHotness → Type 0
Holds t l j e = (get_elem? t j ≡ some e) × (e.lpn ≡ l)

abbrev pub Absent : List PageHotness → ℕ → Type 0
Absent t l = (j : ℕ) (e : PageHotness) → Holds t l j e → ⊥

-- Each page has one entry, and all slots that are probed before it are in use.
pub record IsHashed (size : ℕ) (t : List PageHotness) : Type 0 where
  pub table : IsTable size t
  pub chained :
      (l j : ℕ) (e : PageHotness)
      → l ≢ invalid_lpn
      → Holds t l j e
      → (d : ℕ) × (slot size l d ≡ j) × ((i : ℕ) → i < d → IsUsed t (slot size l i))
  pub unique :
      (l j k : ℕ) (e e1 : PageHotness) → l ≢ invalid_lpn → Holds t l j e → Holds t l k e1 → j ≡ k

same_or_not : (a b : ℕ) → (a ≡ b) ⊎ (a ≢ b)
same_or_not a b = ground arith

-- The entry of page `lpn` in the table `t1` is a new one, and all other entries are those of `t`.
pub record IsAdded (t t1 : List PageHotness) (lpn j : ℕ) : Type 0 where
  pub entry : get_elem? t1 j ≡ some (fresh_entry lpn)
  pub others : (k : ℕ) → k ≢ j → get_elem? t1 k ≡ get_elem? t k

module _ (size : ℕ) (t : List PageHotness) (h : IsHashed size t) (lpn : ℕ)
    (real : lpn ≢ invalid_lpn) where
  -- The search cannot have passed the page's entry.
  unused_first-Absent : (d : ℕ) → IsFirst size t lpn invalid_lpn d → Absent t lpn
  unused_first-Absent d (d_in, (u, at, unused), before) j e (here, own) =
      let (d1, is, chain) = h.chained lpn j e real (here, own) in
      elim (lt-trichotomy d d1) [
        | inl lt ↦
            let (x, at1, used) = chain d lt in
            absurd (used (ap (λ (y : PageHotness). y.lpn) (some_injective (sym at1 ∙ at)) ∙ unused))
        | inr (inl same) ↦
            let at1 : get_elem? t (slot size lpn d) ≡ some e = rw (same, is) here in
            absurd (
              real (
                sym own ∙ ap (λ (y : PageHotness). y.lpn) (some_injective (sym at1 ∙ at)) ∙ unused))
        | inr (inr gt) ↦
            let (x, at1, used, other) = before d1 gt in
            let at2 : get_elem? t (slot size lpn d1) ≡ some e = rw is here in
            absurd (other (ap (λ (y : PageHotness). y.lpn) (some_injective (sym at1 ∙ at2)) ∙ own))
      ]

  all_other-Absent : ((i : ℕ) → i < size → IsOther size t lpn i) → Absent t lpn
  all_other-Absent all j e (here, own) =
      let below : j < size = rw (← h.table.len) (get_elem?-lt-length t j e here) in
      let (i, i_in, is) = round_of size t h.table lpn j below in
      let (x, at, used, other) = all i i_in in
      let at1 : get_elem? t (slot size lpn i) ≡ some e = rw is here in
      other (ap (λ (y : PageHotness). y.lpn) (some_injective (sym at ∙ at1)) ∙ own)

  module _ (d : ℕ) (first : IsFirst size t lpn invalid_lpn d) where
    abbrev s : ℕ
    s = slot size lpn d

    abbrev t1 : List PageHotness
    t1 = set t s (fresh_entry lpn)

    s-at : get_elem? t1 s ≡ some (fresh_entry lpn)
    s-at = get_elem?-set_self t s (fresh_entry lpn) (rw h.table.len (slot-lt size t h.table lpn d))

    keeps : (k : ℕ) → k ≢ s → get_elem? t1 k ≡ get_elem? t k
    keeps k ne = get_elem?-set_ne t s k (fresh_entry lpn) (λ e. ne (sym e))

    IsUsed-still : (k : ℕ) → IsUsed t k → IsUsed t1 k
    IsUsed-still k (e, at, used) = elim (same_or_not k s) [
      | inl same ↦ (fresh_entry lpn, rw same s-at, real)
      | inr ne ↦ (e, keeps k ne ∙ at, used)
    ]

    -- An entry of the new table is the new one or an old one.
    new_or_old :
        (l j : ℕ) (e : PageHotness) → Holds t1 l j e → ((j ≡ s) × (l ≡ lpn)) ⊎ Holds t l j e
    new_or_old l j e (at, is) = elim (same_or_not j s) [
      | inl same ↦
          let at1 : get_elem? t1 s ≡ some e = ap (get_elem? t1) (sym same) ∙ at in
          inl (same, sym is ∙ ap (λ (y : PageHotness). y.lpn) (some_injective (sym at1 ∙ s-at)))
      | inr ne ↦ inr (sym (keeps j ne) ∙ at, is)
    ]

    set-IsHashed : IsHashed size t1
    set-IsHashed =
        let absent = unused_first-Absent d first in
        let (d_in, (u, at, unused), before) = first in
        record {
          table = record {
            len = length-set t s (fresh_entry lpn) ∙ h.table.len;
            pos = h.table.pos;
            small = h.table.small;
          };
          chained = λ l j e own holds. elim (new_or_old l j e holds) [
            | inl (same, is) ↦ (
              d,
              rw (is, same) refl,
              λ i lt.
                  let (x, at1, used, other) = before i lt in
                  rw is (IsUsed-still (slot size lpn i) (x, at1, used)),
            )
            | inr old ↦
                let (d1, is, chain) = h.chained l j e own old in
                (d1, is, λ i lt. IsUsed-still (slot size l i) (chain i lt))
          ];
          unique = λ l j k e e1 own holds holds1. elim (new_or_old l j e holds) [
            | inl (same, is) ↦ elim (new_or_old l k e1 holds1) [
              | inl (same1, is1) ↦ same ∙ sym same1
              | inr old1 ↦ absurd (absent k e1 (old1.0, old1.1 ∙ is))
            ]
            | inr old ↦ elim (new_or_old l k e1 holds1) [
              | inl (same1, is1) ↦ absurd (absent j e (old.0, old.1 ∙ is1))
              | inr old1 ↦ h.unique l j k e e1 own old old1
            ]
          ];
        }

  -- On a table in which each page has one entry, behind slots that are all in use, a search for a
  -- page number other than INVALID_LPN returns, and no array is left. It ends in one of three ways.
  -- It finds the page's entry, and changes nothing. Or the page has none: then it puts a new entry
  -- into one slot, where there was no page's, leaves all other slots alone, and the table is again
  -- one in which each page has one entry, behind slots in use. Or it returns NULL: then it changes
  -- nothing, the page has no entry, and every slot is in use.
  pub find_entry-IsHashed :
      ((j : ℕ) × (e : PageHotness) × (find_entry size t lpn ≡ ok (t, some j)) × Holds t lpn j e)
      ⊎ (((j : ℕ) × (t1 : List PageHotness) × (find_entry size t lpn ≡ ok (t1, some j))
            × Absent t lpn
            × (((u : PageHotness) × Holds t invalid_lpn j u)
                × (IsAdded t t1 lpn j × IsHashed size t1)))
          ⊎ ((find_entry size t lpn ≡ ok (t, none))
              × Absent t lpn
              × ((j : ℕ) → j < size → IsUsed t j)))
  find_entry-IsHashed = elim (find_entry-Ends size t h.table lpn) [
    | inl (d, (d_in, (e, at, own), before), runs) ↦ inl (slot size lpn d, e, runs, (at, own))
    | inr (inl (d, first, runs)) ↦
        let (d_in, (u, at, unused), before) = first in
        inr (
          inl (
            s d first,
            t1 d first,
            runs,
            unused_first-Absent d first,
            (
              (u, (at, unused)),
              (record { entry = s-at d first; others = keeps d first }, set-IsHashed d first),
            ),
          ))
    | inr (inr (all, runs)) ↦ inr (
        inr (
          runs,
          all_other-Absent all,
          λ j below.
              let (i, i_in, is) = round_of size t h.table lpn j below in
              let (x, at, used, other) = all i i_in in (x, ap (get_elem? t) (sym is) ∙ at, used),
        ))
  ]
