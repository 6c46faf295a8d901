-- ===== src/Client/Act.antt =====
-- A method of Client in src/client/client.cpp: it reads and changes the client and the surroundings `W`,
-- and returns a Result. What was written before an early return stays written.
use pqchat.Client.State.{Client}
use pqchat.Prelude.{Bool, Option, String, concat, false, none, refl, some, subst, true, ◌≡◌}
use pqchat.Result.{Result, err, ok}

abbrev pub Act : Type 0 → Type 0 → Type 0
Act W A = Client → W → Result A × (Client × W)

-- `Err(prefix + error)`
abbrev pub prefix_error : {A : Type 0} → String → Result A → Result A
prefix_error prefix (ok a) = ok a
prefix_error prefix (err text) = err (concat prefix text)

pub prefixed-ok :
    {A : Type 0} {a : A} (prefix : String) (r : Result A) → prefix_error prefix r ≡ ok a → r ≡ ok a
prefixed-ok prefix (ok a) e = e
prefixed-ok prefix (err text) e = cc

module _ {W A : Type 0} where
  abbrev pub pure : A → Act W A
  pure a c w = (ok a, (c, w))

  abbrev pub fail : String → Act W A
  fail text c w = (err text, (c, w))

  -- A value that is computed from what is known.
  abbrev pub returned : Result A → Act W A
  returned r c w = (r, (c, w))

  -- A call that does not see the client.
  abbrev pub call : (W → Result A × W) → Act W A
  call f c w = let (r, w') = f w in (r, (c, w'))

  abbrev pub prefix_act : String → Act W A → Act W A
  prefix_act prefix m c w = let (r, s) = m c w in (prefix_error prefix r, s)

  -- `if (it == map.end()) return Err(text)`
  abbrev pub found_or : String → Option A → Act W A
  found_or text none = fail text
  found_or text (some a) = pure a

module _ {W : Type 0} where
  abbrev pub current : Act W Client
  current c w = (ok c, (c, w))

  abbrev pub update : (Client → Client) → Act W (Unit {0})
  update f c w = (ok tt, (f c, w))

  -- `if (!holds) return Err(text)`
  abbrev pub require : Bool → String → Act W (Unit {0})
  require true text = pure tt
  require false text = fail text

module _ {W A B : Type 0} where
  abbrev pub continue : Result A → (A → Act W B) → Act W B
  continue (err text) f = fail text
  continue (ok a) f = f a

  infixl 5 ◌>>=◌
  unfoldable pub ◌>>=◌ : Act W A → (A → Act W B) → Act W B
  ◌>>=◌ m f c w = let (r, s) = m c w in continue r f s.0 s.1

  -- Where the whole returns a value, the first call did, and the rest did from what that left.
  pub record Passed (m : Act W A) (f : A → Act W B) (c : Client) (w : W) (b : B) (s : Client × W)
      : Type 0 where
    pub value : A
    pub between : Client × W
    pub first : m c w ≡ (ok value, between)
    pub second : f value between.0 between.1 ≡ (ok b, s)

  pub >>=-Passed :
      (m : Act W A) (f : A → Act W B) (c : Client) (w : W) {b : B} {s : Client × W}
      → (m >>= f) c w ≡ (ok b, s)
      → Passed m f c w b s
  unfolding ◌>>=◌
  >>=-Passed m f c w {b = b} {s = s} e = go (m c w) refl e
    where
      go :
          (o : Result A × (Client × W))
          → m c w ≡ o
          → continue o.0 f o.1.0 o.1.1 ≡ (ok b, s)
          → Passed m f c w b s
      go (err text, t) h e = cc
      go (ok a, t) h e = record { value = a; between = t; first = h; second = e }

module _ {W A : Type 0} where
  infixl 5 ◌>>◌
  abbrev pub ◌>>◌ : Act W (Unit {0}) → Act W A → Act W A
  ◌>>◌ m n = m >>= λ _. n

-- The same for each kind of first call: what it returned, and that the rest passed.
module _ {W A B : Type 0} {c : Client} {w : W} {b : B} {s : Client × W} where
  pub found-passed :
      (text : String) (o : Option A) (f : A → Act W B)
      → (found_or text o >>= f) c w ≡ (ok b, s)
      → (a : A) × (o ≡ some a) × (f a c w ≡ (ok b, s))
  unfolding ◌>>=◌
  found-passed text none f e = cc
  found-passed text (some a) f e = (a, refl, e)

  pub returned-passed :
      (r : Result A) (f : A → Act W B)
      → (returned r >>= f) c w ≡ (ok b, s)
      → (a : A) × (r ≡ ok a) × (f a c w ≡ (ok b, s))
  unfolding ◌>>=◌
  returned-passed (err text) f e = cc
  returned-passed (ok a) f e = (a, refl, e)

  pub call-passed :
      (f : W → Result A × W) (k : A → Act W B)
      → (call f >>= k) c w ≡ (ok b, s)
      → (a : A) × (after : W) × (f w ≡ (ok a, after)) × (k a c after ≡ (ok b, s))
  unfolding ◌>>=◌
  call-passed f k e = go (f w) refl e
    where
      go :
          (o : Result A × W)
          → f w ≡ o
          → continue o.0 k c o.1 ≡ (ok b, s)
          → (a : A) × (after : W) × (f w ≡ (ok a, after)) × (k a c after ≡ (ok b, s))
      go (err text, u) h e = cc
      go (ok a, u) h e = (a, u, h, e)

  pub prefixed_call-passed :
      (prefix : String) (f : W → Result A × W) (k : A → Act W B)
      → (prefix_act prefix (call f) >>= k) c w ≡ (ok b, s)
      → (a : A) × (after : W) × (f w ≡ (ok a, after)) × (k a c after ≡ (ok b, s))
  unfolding ◌>>=◌
  prefixed_call-passed prefix f k e = go (f w) refl e
    where
      go :
          (o : Result A × W)
          → f w ≡ o
          → continue (prefix_error prefix o.0) k c o.1 ≡ (ok b, s)
          → (a : A) × (after : W) × (f w ≡ (ok a, after)) × (k a c after ≡ (ok b, s))
      go (err text, u) h e = cc
      go (ok a, u) h e = (a, u, h, e)

  -- A call that, where it succeeds, leaves the client.
  pub kept-passed :
      (Q : A → W → Type 0) (m : Act W A) (f : A → Act W B)
      → ((a : A) (t : Client × W) → m c w ≡ (ok a, t) → Q a t.1 × (t.0 ≡ c))
      → (m >>= f) c w ≡ (ok b, s)
      → (a : A) × (after : W) × Q a after × (f a c after ≡ (ok b, s))
  kept-passed Q m f h e =
      let p = >>=-Passed m f c w e in
      let (q, here) = h p.value p.between p.first in
      (p.value, p.between.1, q, subst (λ d. f p.value d p.between.1 ≡ (ok b, s)) here p.second)

  -- A call that, where it succeeds, changes nothing.
  pub unchanged-passed :
      (Q : A → Type 0) (m : Act W A) (f : A → Act W B)
      → ((a : A) (t : Client × W) → m c w ≡ (ok a, t) → Q a × (t ≡ (c, w)))
      → (m >>= f) c w ≡ (ok b, s)
      → (a : A) × Q a × (f a c w ≡ (ok b, s))
  unchanged-passed Q m f h e =
      let p = >>=-Passed m f c w e in
      let (q, here) = h p.value p.between p.first in
      (p.value, q, subst (λ (t : Client × W). f p.value t.0 t.1 ≡ (ok b, s)) here p.second)

module _ {W B : Type 0} {c : Client} {w : W} {b : B} {s : Client × W} where
  pub require-passed :
      (holds : Bool) (text : String) (m : Act W B)
      → (require holds text >> m) c w ≡ (ok b, s)
      → (holds ≡ true) × (m c w ≡ (ok b, s))
  unfolding ◌>>=◌
  require-passed true text m e = (refl, e)
  require-passed false text m e = cc

  pub update-passed :
      (g : Client → Client) (m : Act W B) → (update g >> m) c w ≡ (ok b, s) → m (g c) w ≡ (ok b, s)
  unfolding ◌>>=◌
  update-passed g m e = e

  pub pure-passed : (a : B) → pure a c w ≡ (ok b, s) → (b ≡ a) × (s ≡ (c, w))
  pure-passed a e = (cc, cc)

  pub current-passed :
      (f : Client → Act W B) → (current >>= f) c w ≡ (ok b, s) → f c c w ≡ (ok b, s)
  unfolding ◌>>=◌
  current-passed f e = e

-- Whatever the call returns, it leaves `P` true of the client and the surroundings.
module _ {W : Type 0} (P : Client → W → Type 0) where
  pub record Keeps {A : Type 0} (m : Act W A) : Type 0 where
    pub keeps : (c : Client) (w : W) → P c w → P (m c w).1.0 (m c w).1.1

  module _ {A : Type 0} where
    pub Keeps-returned : (r : Result A) → Keeps (returned r)
    Keeps-returned r = record { keeps = λ c w p. p }

    pub Keeps-call :
        (f : W → Result A × W) → ((c : Client) (w : W) → P c w → P c (f w).1) → Keeps (call f)
    Keeps-call f h = record { keeps = h }

    pub Keeps-found : (text : String) (o : Option A) → Keeps (found_or text o)
    Keeps-found text none = record { keeps = λ c w p. p }
    Keeps-found text (some a) = record { keeps = λ c w p. p }

    pub Keeps-prefix : (prefix : String) {m : Act W A} → Keeps m → Keeps (prefix_act prefix m)
    Keeps-prefix prefix k = record { keeps = k.keeps }

  pub Keeps-update :
      (f : Client → Client) → ((c : Client) (w : W) → P c w → P (f c) w) → Keeps (update f)
  Keeps-update f h = record { keeps = h }

  pub Keeps-current : Keeps current
  Keeps-current = record { keeps = λ c w p. p }

  pub Keeps-require : (holds : Bool) (text : String) → Keeps (require holds text)
  Keeps-require true text = record { keeps = λ c w p. p }
  Keeps-require false text = record { keeps = λ c w p. p }

  module _ {A B : Type 0} where
    pub Keeps-bind :
        {m : Act W A} {f : A → Act W B} → Keeps m → ((a : A) → Keeps (f a)) → Keeps (m >>= f)
    unfolding ◌>>=◌
    Keeps-bind {m} {f} km kf = record { keeps = λ c w p. go (m c w) (km.keeps c w p) }
      where
        go :
            (o : Result A × (Client × W))
            → P o.1.0 o.1.1
            → P (continue o.0 f o.1.0 o.1.1).1.0 (continue o.0 f o.1.0 o.1.1).1.1
        go (err text, t) p = p
        go (ok a, t) p = (kf a).keeps t.0 t.1 p

    -- The rest may use what the first call returned.
    pub Keeps-bind_with :
        (m : Act W A) (f : A → Act W B)
        → Keeps m
        → ((c : Client) (w : W) (a : A) (s : Client × W)
            → P c w
            → m c w ≡ (ok a, s)
            → P s.0 s.1
            → P (f a s.0 s.1).1.0 (f a s.0 s.1).1.1)
        → Keeps (m >>= f)
    unfolding ◌>>=◌
    Keeps-bind_with m f km kf = record { keeps = λ c w p. go c w p (m c w) refl (km.keeps c w p) }
      where
        go :
            (c : Client) (w : W)
            → P c w
            → (o : Result A × (Client × W)) → m c w ≡ o
            → P o.1.0 o.1.1
            → P (continue o.0 f o.1.0 o.1.1).1.0 (continue o.0 f o.1.0 o.1.1).1.1
        go c w p (err text, t) e q = q
        go c w p (ok a, t) e q = kf c w a t p e q
