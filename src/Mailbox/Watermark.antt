-- ===== src/Mailbox/Watermark.antt =====
-- The UID that Indexer.sync keeps: which messages the next run starts after.
use balvibot.Prelude.{
  ℕ, ◌≡◌, refl, sym, ap, ◌∙◌, ◌⊎◌, inl, inr, ◌≤◌, ◌<◌, Bool, true, false, Bool-cases, List, [], ◌∷◌,
  ◌++◌, Str, ◌==◌, ltb, arith, if◌then◌else◌,
}
use balvibot.Errors.{Error, Result, ok, err}
use balvibot.Store.Exec.{World, pure, attempt, ◌>>=◌}
use balvibot.Mailbox.{Parser, Fetched, handle_message, higher, index_all}

module _ (parser : Parser) (folder : Str) (uid_validity : ℕ) where
  -- One message of the loop: where it leads.
  abbrev pub handled : Fetched → World → Result (Unit {0}) × World
  handled f w = handle_message parser folder uid_validity f w

  loop_skip :
      (h : ℕ) (f : Fetched) (fs : List Fetched) (w : World)
      → (f.uid == 0) ≡ true
      → index_all parser folder uid_validity h (f ∷ fs) w
        ≡ index_all parser folder uid_validity h fs w
  unfolding index_all
  loop_skip h f fs w z = rw z refl

  loop_step :
      (h : ℕ) (f : Fetched) (fs : List Fetched) (w : World)
      → (f.uid == 0) ≡ false
      → index_all parser folder uid_validity h (f ∷ fs) w
        ≡ index_all parser folder uid_validity
            (higher parser folder uid_validity f.uid h (handled f w).0)
            fs
            (handled f w).1
  unfolding index_all ◌>>=◌ attempt
  loop_step h f fs w z = rw z refl

  -- A message of the list with this UID, and the loop over the messages before it, in whose world
  -- it was handled and its handling succeeded.
  pub record Indexed (h : ℕ) (w : World) (fs : List Fetched) (n : ℕ) : Type 0 where
    pub before : List Fetched
    pub message : Fetched
    pub after : List Fetched
    pub at : fs ≡ before ++ message ∷ after
    pub uid : message.uid ≡ n
    pub highest : ℕ
    pub world : World
    pub reached : index_all parser folder uid_validity h before w ≡ (ok highest, world)
    pub left : World
    pub success : handled message world ≡ (ok tt, left)

  abbrev IsReached : ℕ → World → List Fetched → ℕ → Type 0
  IsReached h w fs n = (h ≤ n) × ((n ≡ h) ⊎ Indexed h w fs n)

  -- The loop from `h` and `w` goes on from `h'` and `w'` behind the message.
  abbrev GoesOn : Fetched → ℕ → World → ℕ → World → Type 0
  GoesOn f h w h' w' =
      (fs : List Fetched)
      → index_all parser folder uid_validity h (f ∷ fs) w
        ≡ index_all parser folder uid_validity h' fs w'

  later :
      (f : Fetched) (fs : List Fetched) (n h h' : ℕ) (w w' : World)
      → GoesOn f h w h' w'
      → Indexed h' w' fs n
      → Indexed h w (f ∷ fs) n
  later f fs n h h' w w' on i = record {
    before = f ∷ i.before;
    message = i.message;
    after = i.after;
    at = ap (λ l. f ∷ l) i.at;
    uid = i.uid;
    highest = i.highest;
    world = i.world;
    reached = on i.before ∙ i.reached;
    left = i.left;
    success = i.success;
  }

  later-IsReached :
      (f : Fetched) (fs : List Fetched) (n h : ℕ) (w w' : World)
      → GoesOn f h w h w'
      → IsReached h w' fs n
      → IsReached h w (f ∷ fs) n
  later-IsReached f fs n h w w' on (le, inl e) = (le, inl e)
  later-IsReached f fs n h w w' on (le, inr i) = (le, inr (later f fs n h h w w' on i))

  risen :
      (f : Fetched) (fs : List Fetched) (n h : ℕ) (w w' : World) (b : Bool)
      → ltb h f.uid ≡ b
      → GoesOn f h w (if b then f.uid else h) w'
      → handled f w ≡ (ok tt, w')
      → IsReached (if b then f.uid else h) w' fs n
      → IsReached h w (f ∷ fs) n
  risen f fs n h w w' false lt on q p = later-IsReached f fs n h w w' on p
  risen f fs n h w w' true lt on q (le, inl e) = (
    ground arith,
    inr (record {
      before = [];
      message = f;
      after = fs;
      at = refl;
      uid = sym e;
      highest = h;
      world = w;
      reached = unfold index_all pure in refl;
      left = w';
      success = q;
    }),
  )
  risen f fs n h w w' true lt on q (le, inr i) =
      (ground arith, inr (later f fs n h f.uid w w' on i))

  step-IsReached :
      (f : Fetched) (fs : List Fetched) (n h : ℕ) (w : World) (r : Result (Unit {0}) × World)
      → handled f w ≡ r
      → GoesOn f h w (higher parser folder uid_validity f.uid h r.0) r.1
      → IsReached (higher parser folder uid_validity f.uid h r.0) r.1 fs n
      → IsReached h w (f ∷ fs) n
  step-IsReached f fs n h w (err e, w') q on p = later-IsReached f fs n h w w' on p
  step-IsReached f fs n h w (ok tt, w') q on p = risen f fs n h w w' (ltb h f.uid) refl on q p

  -- The loop over the fetched messages never fails, and the UID that it hands on is at least the
  -- one it started from. It is that one, or it is the UID of a fetched message whose handling succeeded in this
  -- very run: in the state to which the loop had led over the messages before it.
  pub watermark_reached :
      (h : ℕ) (fs : List Fetched) (w : World)
      → (n : ℕ) × (w' : World) × (index_all parser folder uid_validity h fs w ≡ (ok n, w'))
        × (h ≤ n)
        × ((n ≡ h) ⊎ Indexed h w fs n)
  watermark_reached h [] w = (h, w, unfold index_all pure in refl, ground arith, inl refl)
  watermark_reached h (f ∷ fs) w = elim (Bool-cases (f.uid == 0)) [
    | inl z ↦
        let (n, w', q, le, r) = watermark_reached h fs w in
        let p = later-IsReached f fs n h w w (λ l. loop_skip h f l w z) (le, r) in
        (n, w', loop_skip h f fs w z ∙ q, p.0, p.1)
    | inr z ↦
        let (n, w', q, le, r) =
          watermark_reached (higher parser folder uid_validity f.uid h (handled f w).0) fs
            (handled f w).1 in
        let p = step-IsReached f fs n h w (handled f w) refl (λ l. loop_step h f l w z) (le, r) in
        (n, w', loop_step h f fs w z ∙ q, p.0, p.1)
  ]

  loop-append :
      (h k : ℕ) (xs ys : List Fetched) (w w' : World)
      → index_all parser folder uid_validity h xs w ≡ (ok k, w')
      → index_all parser folder uid_validity h (xs ++ ys) w
        ≡ index_all parser folder uid_validity k ys w'
  loop-append h k [] ys w w' q = ap (go_on ys) (sym nothing ∙ q)
    where
      nothing : index_all parser folder uid_validity h [] w ≡ (ok h, w)
      nothing = unfold index_all pure in refl

      go_on : List Fetched → Result ℕ × World → Result ℕ × World
      go_on ys (ok k, v) = index_all parser folder uid_validity k ys v
      go_on ys (err e, v) = (err e, v)
  loop-append h k (f ∷ xs) ys w w' q = elim (Bool-cases (f.uid == 0)) [
    | inl z ↦
        loop_skip h f (xs ++ ys) w z ∙ loop-append h k xs ys w w' (sym (loop_skip h f xs w z) ∙ q)
    | inr z ↦
        loop_step h f (xs ++ ys) w z
        ∙ loop-append (higher parser folder uid_validity f.uid h (handled f w).0) k xs ys
            (handled f w).1 w' (sym (loop_step h f xs w z) ∙ q)
  ]

  -- The loop over fetched messages of which one is passed over because its handling fails, and a later
  -- one, with a higher UID, is indexed: whatever comes before, between and behind them, the UID that is handed
  -- on is at least the later one's, so above that of the message that failed.
  pub failed_is_passed :
      (h k m : ℕ) (before between after : List Fetched) (f g : Fetched) (e : Error)
      → (w w1 w2 w3 w4 : World) → 0 < f.uid
      → f.uid < g.uid
      → index_all parser folder uid_validity h before w ≡ (ok k, w1)
      → handled f w1 ≡ (err e, w2)
      → index_all parser folder uid_validity k between w2 ≡ (ok m, w3)
      → handled g w3 ≡ (ok tt, w4)
      → (n : ℕ) × (w' : World) × (index_all parser folder uid_validity h
            (before ++ (f ∷ (between ++ g ∷ after)))
            w
          ≡ (ok n, w'))
        × (g.uid ≤ n)
        × (f.uid < n)
  failed_is_passed h k m before between after f g e w w1 w2 w3 w4 pos order first failed middle
        indexed =
      let (n, w', q, le, r) = watermark_reached (if ltb m g.uid then g.uid else m) after w4 in
      (n, w', run ∙ q, ground arith, ground arith)
    where
      passed :
          index_all parser folder uid_validity k (f ∷ (between ++ g ∷ after)) w1
          ≡ index_all parser folder uid_validity k (between ++ g ∷ after) w2
      passed = loop_step k f (between ++ g ∷ after) w1 (ground arith) ∙ rw failed refl

      raised :
          index_all parser folder uid_validity m (g ∷ after) w3
          ≡ index_all parser folder uid_validity (if ltb m g.uid then g.uid else m) after w4
      raised = loop_step m g after w3 (ground arith) ∙ rw indexed refl

      run :
          index_all parser folder uid_validity h (before ++ (f ∷ (between ++ g ∷ after))) w
          ≡ index_all parser folder uid_validity (if ltb m g.uid then g.uid else m) after w4
      run =
          loop-append h k before (f ∷ (between ++ g ∷ after)) w w1 first
          ∙ passed
          ∙ loop-append k m between (g ∷ after) w2 w3 middle
          ∙ raised
