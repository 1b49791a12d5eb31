-- ===== src/Scan/Pages.antt =====
-- The paging loop of `scan_one_source`: its fuel and its budget.
use decision_center.Base.{
  Bool, true, false, ℕ, zero, suc, ◌+◌, ◌*◌, ◌≤◌, ◌≡◌, refl, ap, ◌⊎◌, inl, inr, Bool-cases, arith,
  ltb, if◌then◌else◌, ◌&&◌,
}
use decision_center.Scan.{Reply, answered, timed_out, raised, ScanConfig, Service}
use decision_center.Scan.Source.{Paging, ended, page_loop, page_reply}

page_reply-same :
    (cfg : ScanConfig) (service : Service) (pages offset : ℕ) (r : Reply ℕ) (f g : ℕ → Paging)
    → ((n : ℕ) → f n ≡ g n)
    → page_reply cfg service pages offset r f ≡ page_reply cfg service pages offset r g
unfolding page_reply
page_reply-same cfg service pages offset timed_out f g h = refl
page_reply-same cfg service pages offset raised f g h = refl
page_reply-same cfg service pages offset (answered n) f g h = ground (arith, h n)

-- The loop needs no more fuel than pages are left in the budget: with any two such fuels, it returns
-- the same.
pub page_loop-fuel :
    (cfg : ScanConfig) (service : Service) (fuel more target seen pages offset : ℕ)
    → cfg.max_pages ≤ fuel + pages
    → cfg.max_pages ≤ more + pages
    → page_loop cfg service fuel target seen pages offset
      ≡ page_loop cfg service more target seen pages offset
unfolding page_loop
page_loop-fuel cfg service zero zero target seen pages offset h k = refl
page_loop-fuel cfg service zero (suc more) target seen pages offset h k = ground (arith, h)
page_loop-fuel cfg service (suc fuel) zero target seen pages offset h k = ground (arith, k)
page_loop-fuel cfg service (suc fuel) (suc more) target seen pages offset h k =
    ap
      (λ step.
        if ltb seen target && ltb pages cfg.max_pages
        then if service.past_deadline pages then ended true pages offset else step
        else ended false pages offset)
      (page_reply-same cfg service pages offset (service.reads pages offset)
        (λ n. page_loop cfg service fuel target (seen + n) (suc pages) (offset + cfg.page_size))
        (λ n. page_loop cfg service more target (seen + n) (suc pages) (offset + cfg.page_size))
        (λ n.
          page_loop-fuel cfg service fuel more target (seen + n) (suc pages)
            (offset + cfg.page_size) (omega (arith, h)) (omega (arith, k))))

-- How a page can end the loop: before it counts, with it, or later.
page_reply-ended :
    (cfg : ScanConfig) (service : Service) (pages offset : ℕ) (r : Reply ℕ) (f : ℕ → Paging)
    {broke : Bool} {p o : ℕ}
    → page_reply cfg service pages offset r f ≡ ended broke p o
    → ((p ≡ pages) × (o ≡ offset))
      ⊎ ((p ≡ suc pages) × (o ≡ offset + cfg.page_size))
      ⊎ ((n : ℕ) × (f n ≡ ended broke p o))
unfolding page_reply
page_reply-ended cfg service pages offset timed_out f h = inl (ground (arith, h))
page_reply-ended cfg service pages offset raised f h = inl (ground (arith, h))
page_reply-ended cfg service pages offset (answered n) f h =
    elim (Bool-cases (ltb n cfg.page_size)) [
      | inl e ↦ inr (inl (ground (arith, rw e at h)))
      | inr e ↦ inr (inr (n, rw e at h))
    ]

-- From a page count in the budget, the loop stays in the budget, and its offset has moved by a page
-- size for each page that it read.
pub page_loop-bounds :
    (cfg : ScanConfig) (service : Service) (fuel target seen pages offset : ℕ) {broke : Bool}
    {p o : ℕ}
    → pages ≤ cfg.max_pages
    → page_loop cfg service fuel target seen pages offset ≡ ended broke p o
    → (k : ℕ) × (p ≡ pages + k) × (p ≤ cfg.max_pages) × (o ≡ offset + k * cfg.page_size)
unfolding page_loop page_reply
page_loop-bounds cfg service zero target seen pages offset b h =
    (0, ground (arith, h), ground (arith, h, b), ground (arith, h))
page_loop-bounds cfg service (suc fuel) target seen pages offset b h =
    elim (Bool-cases (ltb seen target && ltb pages cfg.max_pages)) [
      | inr e ↦
          let out = rw e at h in
          (0, ground (arith, out), ground (arith, out, b), ground (arith, out))
      | inl e ↦
          let room : suc pages ≤ cfg.max_pages = ground (arith, e) in
          let on = rw e at h in
          elim (Bool-cases (service.past_deadline pages)) [
            | inl late ↦
                let out = rw late at on in
                (0, ground (arith, out), ground (arith, out, b), ground (arith, out))
            | inr late ↦
                elim (page_reply-ended cfg service pages offset (service.reads pages offset) _
                  (rw late at on)) [
                    | inl (same, there) ↦
                        (0, omega (arith, same), omega (arith, same, b), omega (arith, there))
                    | inr (inl (same, there)) ↦
                        (1, omega (arith, same), omega (arith, same, room), omega (arith, there))
                    | inr (inr (n, later)) ↦
                        let (k, counted, inside, moved) =
                          page_loop-bounds cfg service fuel target (seen + n) (suc pages)
                            (offset + cfg.page_size) room later in
                        (suc k, omega (arith, counted), inside, grind (arith, moved))
                  ]
          ]
    ]
