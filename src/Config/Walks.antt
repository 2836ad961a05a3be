-- ===== src/Config/Walks.antt =====
-- The search for a cycle among the fallbacks (`validateFallbacks` of internal/config/validate.go): what
-- a call of its closure leaves.
use agent.Base.{
  ℕ, zero, suc, ◌+◌, ◌≡◌, ◌≤◌, ◌<◌, refl, sym, ◌∙◌, Bool, true, false, List, [], ◌∷◌, arith,
  if◌then◌else◌, length, inl, inr, Bool-cases, if-intro, ◌⊎◌,
}
use agent.Text.{Text, text_eq, text_beq_iff}
use agent.Map.{◌==◌, Map, insert, mem, lookup-insert}
use agent.Config.Fallbacks.{
  Colours, flag, Walk, out_of_fuel, cycle_at, walked, edges, walk_all, enter, left, walk,
}

-- How many of these models the search does not stand in.
unfoldable pub idle : Map Text Bool → List Text → ℕ
idle visiting [] = 0
idle visiting (k ∷ ks) = let rest = idle visiting ks in if flag k visiting then rest else rest + 1

pub idle-le : (v : Map Text Bool) (ks : List Text) → idle v ks ≤ length ks
unfolding idle
idle-le v [] = omega arith
idle-le v (k ∷ ks) = ground (arith, idle-le v ks)

idle-same :
    (v w : Map Text Bool) (ks : List Text)
    → ((x : Text) → flag x v ≡ flag x w)
    → idle v ks ≡ idle w ks
unfolding idle
idle-same v w [] h = refl
idle-same v w (k ∷ ks) h = ground (arith, h k, idle-same v w ks h)

flag-insert :
    (x m : Text) (b : Bool) (v : Map Text Bool)
    → flag x (insert m b v) ≡ (if m == x then b else flag x v)
flag-insert x m b v = ground (arith, lookup-insert x m b v)

idle-insert_le :
    (m : Text) (v : Map Text Bool) (ks : List Text) → idle (insert m true v) ks ≤ idle v ks
unfolding idle
idle-insert_le m v [] = omega arith
idle-insert_le m v (k ∷ ks) = ground (arith, flag-insert k m true v, idle-insert_le m v ks)

idle-insert_lt :
    (m : Text) (v : Map Text Bool) (ks : List Text)
    → mem m ks ≡ true
    → flag m v ≡ false
    → idle (insert m true v) ks < idle v ks
unfolding idle mem
idle-insert_lt m v [] h f = ground arith
idle-insert_lt m v (k ∷ ks) h f = ground (
  arith,
  text_beq_iff k m,
  text_beq_iff m k,
  flag-insert k m true v,
  idle-insert_le m v ks,
  idle-insert_lt m v ks,
)

module _ (normalized : Map Text (List Text)) where
  -- One fallback after the other, at least one.
  pub data Chain (a : Text) : Text → Type 0 where
    one : {b : Text} → mem b (edges normalized a) ≡ true → Chain a b
    more : {b c : Text} → Chain a b → mem c (edges normalized b) ≡ true → Chain a c

  -- A model from which every chain of fallbacks ends.
  pub data Ends : Text → Type 0 where
    ends : {a : Text} → ((b : Text) → mem b (edges normalized a) ≡ true → Ends b) → Ends a

  abbrev pub Settled : Colours → Type 0
  Settled s = (x : Text) → flag x s.visited ≡ true → Ends x

  -- What a call of the closure keeps, and what it needs.
  pub record Done (s s' : Colours) : Type 0 where
    pub same : (x : Text) → flag x s'.visiting ≡ flag x s.visiting
    pub grown : (x : Text) → flag x s.visited ≡ true → flag x s'.visited ≡ true
    pub settled : Settled s'

  module _ (models : List Text) where
    pub record Ready (fuel : ℕ) (m : Text) (s : Colours) : Type 0 where
      pub below : (x : Text) → flag x s.visiting ≡ true → Chain x m
      pub settled : Settled s
      pub inside : mem m models ≡ true
      pub room : idle s.visiting models < fuel

    abbrev pub Visited : Text → Colours → Walk → Type 0
    Visited m s out_of_fuel = ⊥
    Visited m s (cycle_at c) = Chain c c
    Visited m s (walked s') = Done s s' × (flag m s'.visited ≡ true)

    abbrev pub VisitedAll : List Text → Colours → Walk → Type 0
    VisitedAll ms s out_of_fuel = ⊥
    VisitedAll ms s (cycle_at c) = Chain c c
    VisitedAll ms s (walked s') =
        Done s s' × ((b : Text) → mem b ms ≡ true → flag b s'.visited ≡ true)

    Done-refl : (s : Colours) → Settled s → Done s s
    Done-refl s h = record { same = λ x. refl; grown = λ x e. e; settled = h }

    Done-trans : {s t u : Colours} → Done s t → Done t u → Done s u
    Done-trans p q = record {
      same = λ x. q.same x ∙ p.same x;
      grown = λ x e. q.grown x (p.grown x e);
      settled = q.settled;
    }

    Ready-Done :
        (fuel : ℕ) (m : Text) {s s' : Colours} → Done s s' → Ready fuel m s → Ready fuel m s'
    Ready-Done fuel m {s} {s'} d r = record {
      below = λ x e. r.below x (sym (d.same x) ∙ e);
      settled = d.settled;
      inside = r.inside;
      room = omega (arith, r.room, idle-same s'.visiting s.visiting models d.same);
    }

    abbrev pub AllReady : ℕ → List Text → Colours → Type 0
    AllReady fuel ms s = (b : Text) → mem b ms ≡ true → Ready fuel b s

    -- The rest of the loop after one call.
    join-Visited :
        (m : Text) (ms : List Text) {s s' : Colours}
        → Done s s'
        → flag m s'.visited ≡ true
        → (w : Walk) → VisitedAll ms s' w
        → VisitedAll (m ∷ ms) s w
    unfolding mem
    join-Visited m ms d old out_of_fuel v = v
    join-Visited m ms d old (cycle_at c) v = v
    join-Visited m ms d old (walked s'') (d', all) = (
      Done-trans d d',
      λ b e. elim (Bool-cases (m == b)) [
        | inl this ↦ ground (arith, text_beq_iff m b, d'.grown m old)
        | inr other ↦ all b (ground (arith, other))
      ],
    )

    module _ (fuel : ℕ) (visit' : Text → Colours → Walk) where
      step-Visited :
          (m : Text) (ms : List Text) (s : Colours)
          → AllReady fuel (m ∷ ms) s
          → ((s' : Colours)
              → Settled s'
              → AllReady fuel ms s'
              → VisitedAll ms s' (walk_all visit' ms s'))
          → (w : Walk) → Visited m s w
          → VisitedAll (m ∷ ms) s (elim w [
            | out_of_fuel ↦ out_of_fuel
            | cycle_at c ↦ cycle_at c
            | walked s' ↦ walk_all visit' ms s'
          ])
      unfolding mem
      step-Visited m ms s r rest out_of_fuel v = v
      step-Visited m ms s r rest (cycle_at c) v = v
      step-Visited m ms s r rest (walked s') (d, old) =
          join-Visited m ms d old (walk_all visit' ms s')
            (rest s' d.settled (λ b e. Ready-Done fuel b d (r b (ground (arith, e)))))

      pub walk_all-Visited :
          ((m : Text) (s : Colours) → Ready fuel m s → Visited m s (visit' m s))
          → (ms : List Text) (s : Colours) → Settled s
          → AllReady fuel ms s
          → VisitedAll ms s (walk_all visit' ms s)
      unfolding walk_all mem
      walk_all-Visited spec [] s h r = (Done-refl s h, λ b e. ground arith)
      walk_all-Visited spec (m ∷ ms) s h r =
          step-Visited m ms s r (walk_all-Visited spec ms) (visit' m s)
            (spec m s (r m (ground (arith, text_beq_iff m m))))

    -- What stands behind `visiting[model] = true` and `visiting[model] = false`.
    left-Visited :
        (m : Text) (s : Colours)
        → flag m s.visiting ≡ false
        → (w : Walk) → VisitedAll (edges normalized m) (enter m s) w
        → Visited m s (left m w)
    left-Visited m s new out_of_fuel v = v
    left-Visited m s new (cycle_at c) v = v
    left-Visited m s new (walked s') (d, all) = (
      record {
        same = λ x. ground (
          arith,
          text_beq_iff m x,
          flag-insert x m false s'.visiting,
          flag-insert x m true s.visiting,
          d.same x,
        );
        grown = λ x e. ground (arith, flag-insert x m true s'.visited, d.grown x e);
        settled = λ x e. elim (Bool-cases (m == x)) [
          | inl this ↦
              rw (sym ((text_beq_iff m x).0 this)) (ends (λ b edge. d.settled b (all b edge)))
          | inr other ↦ d.settled x (ground (arith, other, flag-insert x m true s'.visited))
        ];
      },
      ground (arith, text_beq_iff m m, flag-insert m m true s'.visited),
    )

    -- The fallbacks of the models lead to models.
    abbrev pub Closed : Type 0
    Closed = (a b : Text) → mem b (edges normalized a) ≡ true → mem b models ≡ true

    enter-Ready :
        (fuel : ℕ) (m : Text) (s : Colours)
        → Closed
        → flag m s.visiting ≡ false
        → Ready (suc fuel) m s
        → AllReady fuel (edges normalized m) (enter m s)
    enter-Ready fuel m s closed new r b edge = record {
      below = λ x e. elim (Bool-cases (m == x)) [
        | inl this ↦ rw (sym ((text_beq_iff m x).0 this)) (one edge)
        | inr other ↦ more (r.below x (ground (arith, other, flag-insert x m true s.visiting))) edge
      ];
      settled = r.settled;
      inside = closed m b edge;
      room = omega (arith, r.room, idle-insert_lt m s.visiting models r.inside new);
    }

    pub walk-Visited :
        Closed
        → (fuel : ℕ) (m : Text) (s : Colours) → Ready fuel m s
        → Visited m s (walk normalized fuel m s)
    unfolding walk
    walk-Visited closed zero m s r = ground (arith, r.room)
    walk-Visited closed (suc fuel) m s r =
        if-intro (Visited m s) (flag m s.visiting) (λ again. r.below m again)
          (λ new.
            if-intro (Visited m s) (flag m s.visited) (λ old. (Done-refl s r.settled, old))
              (λ unseen.
                left-Visited m s new
                  (walk_all (walk normalized fuel) (edges normalized m) (enter m s))
                  (walk_all-Visited fuel (walk normalized fuel) (walk-Visited closed fuel)
                    (edges normalized m) (enter m s) r.settled
                    (enter-Ready fuel m s closed new r))))

  -- The first fallback of a chain.
  Chain-first :
      {a c : Text}
      → Chain a c
      → (b : Text) × (mem b (edges normalized a) ≡ true) × ((b ≡ c) ⊎ Chain b c)
  Chain-first (one e) = (_, e, inl refl)
  Chain-first (more c e) =
      let (b, f, rest) = Chain-first c in
      (b, f, inr (elim rest [ inl same ↦ rw same (one e) | inr d ↦ more d e ]))

  -- A model from which every chain ends is on no cycle.
  pub Ends-acyclic : {a : Text} → Ends a → ¬ Chain a a
  Ends-acyclic {a} (ends next) c =
      let (b, e, rest) = Chain-first c in
      Ends-acyclic (next b e)
        (elim rest [ inl same ↦ one (rw same (rw same at e)) | inr d ↦ more d e ])
