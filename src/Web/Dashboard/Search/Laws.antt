-- ===== src/Web/Dashboard/Search/Laws.antt =====
-- However typing, timers and replies follow one another, no reply to an older text reaches the page.
use intelli_store.Prelude.{
  ℕ, ◌+◌, ◌≤◌, String, ◌≡◌, refl, sym, ap, subst, ◌∙◌, inl, inr, Bool, true, false, not, none, List,
  [], ◌∷◌, ◌++◌, ◌==◌, All, All-append, Bool-cases, arith, filter, filter-append, length,
  length-append,
}
use intelli_store.Metadata.Service.{FileWithLatestVersion}
use intelli_store.Web.Api.{Outcome, api_error, failed, resolved}
use intelli_store.Web.Dashboard.{DashboardPage, visible_files}
use intelli_store.Web.Dashboard.Search.{
  Pending, SearchReach, Searching, SearchStep, cancel_all, elsewhere, fires, apply_results, replies,
  reply_to, search_effect, set_search_query, start, step, types,
}

All-middle :
    {A : Type 0} (P : A → Type 0) (before : List A) (x : A) (after : List A)
    → All P (before ++ x ∷ after)
    → All P before × P x × All P after
All-middle P [] x after h = (tt, h.0, h.1)
All-middle P (y ∷ ys) x after h = let (b, p, a) = All-middle P ys x after h.1 in ((h.0, b), p, a)

abbrev is_live : Pending → Bool
is_live p = not p.cancelled

abbrev pub live_count : List Pending → ℕ
live_count ps = length (filter is_live ps)

live_count-append : (xs ys : List Pending) → live_count (xs ++ ys) ≡ live_count xs + live_count ys
live_count-append xs ys = ap length (filter-append is_live xs ys) ∙ length-append _ _

abbrev one_unless : Bool → ℕ
one_unless true = 0
one_unless false = 1

live_count-around :
    (before after : List Pending) (p : Pending)
    → live_count (before ++ p ∷ after)
      ≡ live_count before + (one_unless p.cancelled + live_count after)
live_count-around before after p = elim (Bool-cases p.cancelled) [
  | inl e ↦ live_count-append before (p ∷ after) ∙ rw e (omega arith)
  | inr e ↦ live_count-append before (p ∷ after) ∙ rw e (omega arith)
]

live_count-cancel_all : (ps : List Pending) → live_count (cancel_all ps) ≡ 0
live_count-cancel_all [] = refl
live_count-cancel_all (p ∷ ps) = elim (Bool-cases p.sent) [
  | inl e ↦ rw e (live_count-cancel_all ps)
  | inr e ↦ rw e (live_count-cancel_all ps)
]

module _ (trim : String → String) where
  -- A request that was not cancelled asks for this text.
  abbrev pub AsksFor : String → Pending → Type 0
  AsksFor text p = p.cancelled ≡ false → (p.query ≡ trim text) × ((p.query == "") ≡ false)

  cancel_all-AsksFor : (text : String) (ps : List Pending) → All (AsksFor text) (cancel_all ps)
  cancel_all-AsksFor text [] = tt
  cancel_all-AsksFor text (p ∷ ps) = elim (Bool-cases p.sent) [
    | inl e ↦ rw e ((λ h. absurd (cc)), cancel_all-AsksFor text ps)
    | inr e ↦ rw e (cancel_all-AsksFor text ps)
  ]

  not_blank :
      (q text : String)
      → (trim text == "") ≡ true
      → (q ≡ trim text) × ((q == "") ≡ false)
      → true ≡ false
  not_blank q text e p = sym e ∙ ap (λ x. x == "") (sym p.0) ∙ p.1

module _ {D : Type 0} (trim : String → String) where
  pub record IsCurrent (s : Searching D) : Type 0 where
    pub asks : All (AsksFor trim s.page.search_query) s.pending
    pub at_most_one : live_count s.pending ≤ 1
    pub blank : (trim s.page.search_query == "") ≡ true → s.page.matched_ids ≡ none

  search_effect-IsCurrent :
      (text : String) (p : DashboardPage D) (ps : List Pending)
      → p.search_query ≡ text
      → All (AsksFor trim text) ps
      → live_count ps ≡ 0
      → IsCurrent (search_effect trim (trim text) p ps)
  search_effect-IsCurrent text p ps same h zero = elim (Bool-cases (trim text == "")) [
    | inl e ↦
        rw e (record { asks = rw same h; at_most_one = omega (arith, zero); blank = λ _. refl })
    | inr e ↦ rw e (record {
      asks = rw same (All-append _ ps (_ ∷ []) h ((λ _. (refl, e)), tt));
      at_most_one = rw (live_count-append ps (_ ∷ [])) (omega (arith, zero));
      blank = rw same (λ f. absurd (cc));
    })
  ]

  reply-IsCurrent :
      (request : Pending) (r : Outcome (List FileWithLatestVersion)) (s : Searching D)
      (rest : List Pending)
      → (request.query ≡ trim s.page.search_query) × ((request.query == "") ≡ false)
      → All (AsksFor trim s.page.search_query) rest
      → live_count rest ≤ 1
      → IsCurrent (record { page = apply_results trim r s.page; pending = rest })
  reply-IsCurrent request (resolved x) s rest p h k = record {
    asks = h;
    at_most_one = k;
    blank = λ e. absurd (let f = not_blank trim request.query s.page.search_query e p in cc);
  }
  reply-IsCurrent request (api_error m c t) s rest p h k = record {
    asks = h;
    at_most_one = k;
    blank = λ e. absurd (let f = not_blank trim request.query s.page.search_query e p in cc);
  }
  reply-IsCurrent request failed s rest p h k = record {
    asks = h;
    at_most_one = k;
    blank = λ e. absurd (let f = not_blank trim request.query s.page.search_query e p in cc);
  }

  SearchStep-IsCurrent : (s t : Searching D) → IsCurrent s → SearchStep trim s t → IsCurrent t
  unfolding set_search_query reply_to
  SearchStep-IsCurrent s _ c (types text) = elim (Bool-cases (text == s.page.search_query)) [
    | inl e ↦ rw e c
    | inr e ↦ rw e (
        search_effect-IsCurrent text (record s.page { search_query = text }) (cancel_all s.pending)
          refl (cancel_all-AsksFor trim text s.pending) (live_count-cancel_all s.pending))
  ]
  SearchStep-IsCurrent s _ c (fires before after request e) =
      let (b, p, a) =
        All-middle _ before request after
          (subst (All (AsksFor trim s.page.search_query)) e c.asks) in
      record {
        asks = All-append _ before (record request { sent = true } ∷ after) b (p, a);
        at_most_one = omega (
          arith,
          live_count-around before after (record request { sent = true }),
          live_count-around before after request,
          ap live_count e,
          c.at_most_one,
        );
        blank = c.blank;
      }
  SearchStep-IsCurrent s _ c (replies before after request r e sent) =
      let (b, p, a) =
        All-middle _ before request after
          (subst (All (AsksFor trim s.page.search_query)) e c.asks) in
      let fewer : live_count (before ++ after) ≤ 1 = omega (
        arith,
        live_count-append before after,
        live_count-around before after request,
        ap live_count e,
        c.at_most_one,
      ) in
      elim (Bool-cases request.cancelled) [
        | inl f ↦
            rw f (record {
              asks = All-append _ before after b a;
              at_most_one = fewer;
              blank = c.blank;
            })
        | inr f ↦ rw f (
            reply-IsCurrent request r s (before ++ after) (p f) (All-append _ before after b a)
              fewer)
      ]
  SearchStep-IsCurrent s _ c (elsewhere p query matched) = record {
    asks = rw query c.asks;
    at_most_one = c.at_most_one;
    blank = rw (query, matched) c.blank;
  }

  kept-IsCurrent : (s t : Searching D) → IsCurrent s → SearchReach trim s t → IsCurrent t
  kept-IsCurrent s _ c start = c
  kept-IsCurrent s t c (step {t = m} r h) = SearchStep-IsCurrent m t (kept-IsCurrent s m c r) h

  -- From a page on which nothing is searched for, whatever is typed, whichever timers end and replies
  -- come, and whatever the other handlers do in between: a request that was not cancelled asks for
  -- the text that is in the field now, and there is at most one; where the field is blank, all files
  -- are shown.
  pub SearchReach-IsCurrent :
      (s t : Searching D)
      → s.pending ≡ []
      → s.page.matched_ids ≡ none
      → SearchReach trim s t
      → All (AsksFor trim t.page.search_query) t.pending
        × (live_count t.pending ≤ 1)
        × ((trim t.page.search_query == "") ≡ true → visible_files t.page ≡ t.page.files)
  SearchReach-IsCurrent s t none_pending none_matched r =
      let c =
        kept-IsCurrent s t
          (record {
            asks = rw none_pending tt;
            at_most_one = rw none_pending (omega arith);
            blank = λ e. none_matched;
          })
          r in
      (c.asks, c.at_most_one, λ e. rw (c.blank e) refl)
