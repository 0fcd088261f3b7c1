-- ===== src/Config/Overrides.antt =====
-- What a configuration that `Load` returns is made of.
use mathlib.Core.List.{Permᴰ}
use mathlib.Core.Path.{subst}
use hannah_logcollector.Prelude.{
  ◌≡◌, ◌⊎◌, inl, inr, refl, sym, ap, ◌∙◌, List, [], ◌∷◌, Option, none, some, arith, ℤ,
  if◌then◌else◌,
}
use hannah_logcollector.Text.{Bytes, codes, is_empty}
use hannah_logcollector.Text.Decimal.{atoi}
use hannah_logcollector.Config.{
  Config, Number, advertise_port, days, max_size_mb, Loaded, ok, refused, ◌>>=◌, validate, env,
  key_of, override, apply_texts, assign, parsed, apply_number, apply_numbers, apply_env,
  all_numbers, from_file, load,
}
use hannah_logcollector.Config.Order.{settled, apply_numbers-perm}
use hannah_logcollector.Config.Valid.{IsValid, validate-IsValid}

-- The value of a setting.
abbrev pub setting : Number → Config → ℤ
setting advertise_port c = c.server.advertise_port
setting days c = c.retention.days
setting max_size_mb c = c.retention.max_size_mb

-- A configuration with the numbers and texts that the environment gives in place of those of `base`.
pub record Overrides (getenv : Bytes → Bytes) (base c : Config) : Type 0 where
  pub hannah_address :
      c.hannah.address ≡ override getenv (codes "HANNAH_ADDRESS") base.hannah.address
  pub listens : c.server.listen ≡ override getenv (codes "SERVER_LISTEN") base.server.listen
  pub advertised :
      c.server.advertise_host
      ≡ override getenv (codes "SERVER_ADVERTISE_HOST") base.server.advertise_host
  pub named :
      c.server.instance_name ≡ override getenv (codes "SERVER_INSTANCE") base.server.instance_name
  pub receives : c.syslog.listen ≡ override getenv (codes "SYSLOG_LISTEN") base.syslog.listen
  pub forwards_to :
      c.forward.address ≡ override getenv (codes "FORWARD_ADDRESS") base.forward.address
  pub forwards_by :
      c.forward.protocol ≡ override getenv (codes "FORWARD_PROTOCOL") base.forward.protocol
  pub stores_in : c.db.path ≡ override getenv (codes "DB_PATH") base.db.path
  pub logs : c.log.level ≡ override getenv (codes "LOG_LEVEL") base.log.level
  pub numbers :
      (t : Number)
      → ((env getenv (key_of t) ≡ []) × (setting t c ≡ setting t base))
        ⊎ (atoi (env getenv (key_of t)) ≡ some (setting t c))

-- What one round makes of a variable with the value `s`.
abbrev Assigned : Bytes → Number → Config → Config → Type 0
Assigned s t c c' =
    (n : ℤ) × (c' ≡ assign t n c) × (((s ≡ []) × (n ≡ setting t c)) ⊎ (atoi s ≡ some n))

assign_same : (t : Number) (c : Config) → c ≡ assign t (setting t c) c
assign_same advertise_port c = refl
assign_same days c = refl
assign_same max_size_mb c = refl

ok_inj : {A : Type 0} {a b : A} → ◌≡◌ {A = Loaded A} (ok a) (ok b) → a ≡ b
ok_inj h = cc

parsed_lem :
    (s : Bytes) (t : Number) (c c' : Config) (found : Option ℤ)
    → atoi s ≡ found
    → parsed t found c ≡ ok c'
    → Assigned s t c c'
parsed_lem s t c c' none e h = ground arith
parsed_lem s t c c' (some n) e h = (n, sym (ok_inj h), inr e)

applied :
    (s : Bytes) (t : Number) (c c' : Config)
    → (if is_empty s then ok c else parsed t (atoi s) c) ≡ ok c'
    → Assigned s t c c'
applied [] t c c' h = (setting t c, sym (ok_inj h) ∙ assign_same t c, inl (refl, refl))
applied (x ∷ s) t c c' h = parsed_lem (x ∷ s) t c c' (atoi (x ∷ s)) refl h

-- A chain that succeeds: its first part did, and so does the rest.
chain_ok :
    {A B : Type 0} {b : B} (m : Loaded A) (next : A → Loaded B)
    → (m >>= next) ≡ ok b
    → (a : A) × (m ≡ ok a) × (next a ≡ ok b)
chain_ok (refused e) next h = ground arith
chain_ok (ok a) next h = (a, refl, h)

settled_ok : {A : Type 0} (r : Loaded A) {a : A} → settled r ≡ some a → r ≡ ok a
settled_ok (ok _) h = ground arith
settled_ok (refused _) h = ground arith

-- What a round says of its setting still holds of the setting before it, if that has the same value.
kept :
    (s : Bytes) (n old base : ℤ)
    → old ≡ base
    → ((s ≡ []) × (n ≡ old)) ⊎ (atoi s ≡ some n)
    → ((s ≡ []) × (n ≡ base)) ⊎ (atoi s ≡ some n)
kept s n old base e (inl (unset, same)) = inl (unset, same ∙ e)
kept s n old base e (inr found) = inr found

module _ (getenv : Bytes → Bytes) where
  apply_numbers-Overrides :
      (base c : Config)
      → apply_numbers getenv all_numbers (apply_texts getenv base) ≡ ok c
      → Overrides getenv base c
  unfolding apply_numbers apply_texts
  apply_numbers-Overrides base c h =
      let texts = apply_texts getenv base in
      let (c1, a1, r1) = chain_ok (apply_number getenv advertise_port texts) _ h in
      let (c2, a2, r2) = chain_ok (apply_number getenv days c1) _ r1 in
      let (c3, a3, r3) = chain_ok (apply_number getenv max_size_mb c2) _ r2 in
      let (n1, e1, w1) = applied (env getenv (key_of advertise_port)) advertise_port texts c1 a1 in
      let (n2, e2, w2) = applied (env getenv (key_of days)) days c1 c2 a2 in
      let (n3, e3, w3) = applied (env getenv (key_of max_size_mb)) max_size_mb c2 c3 a3 in
      let whole : assign max_size_mb n3 (assign days n2 (assign advertise_port n1 texts)) ≡ c =
        sym (e3 ∙ ap (assign max_size_mb n3) (e2 ∙ ap (assign days n2) e1)) ∙ ok_inj r3 in
      let value : (t : Number)
          → ((env getenv (key_of t) ≡ [])
              × (setting t (assign max_size_mb n3 (assign days n2 (assign advertise_port n1 texts)))
                  ≡ setting t base))
            ⊎ (atoi (env getenv (key_of t))
                ≡ some (
                    setting t
                      (assign max_size_mb n3 (assign days n2 (assign advertise_port n1 texts))))) =
        elim [
          | advertise_port ↦ w1
          | days ↦ kept _ n2 _ _ (ap (setting days) e1) w2
          | max_size_mb ↦ kept _ n3 _ _ (ap (setting max_size_mb) (e2 ∙ ap (assign days n2) e1)) w3
        ] in
      subst (Overrides getenv base) whole (record {
        hannah_address = refl;
        listens = refl;
        advertised = refl;
        named = refl;
        receives = refl;
        forwards_to = refl;
        forwards_by = refl;
        stores_in = refl;
        logs = refl;
        numbers = value;
      })

module _ {File : Type 0} (read_file : Bytes → Option File)
    (unmarshal : File → Config → Option Config) (getenv : Bytes → Bytes)
    (split_host_port : Bytes → Option (Bytes × Bytes)) where
  -- In whatever order Go ranges over the map of numbers: a configuration that `Load` returns is the
  -- one of the defaults and the file, with every setting that the environment gives in its place (a
  -- number only if it is one), and it is one that `validate` is there for.
  pub load-Overrides :
      (order : List Number) (path : Bytes) (c : Config)
      → Permᴰ all_numbers order
      → load read_file unmarshal getenv split_host_port order path ≡ ok c
      → IsValid split_host_port c
        × ((base : Config) × (from_file read_file unmarshal getenv split_host_port path ≡ ok base)
            × Overrides getenv base c)
  unfolding load apply_env
  load-Overrides order path c p h =
      let (base, found, r1) =
        chain_ok (from_file read_file unmarshal getenv split_host_port path) _ h in
      let (c', done, r2) = chain_ok (apply_numbers getenv order (apply_texts getenv base)) _ r1 in
      let (u, valid, r3) = chain_ok (validate split_host_port c') _ r2 in
      let in_order =
        settled_ok _ (apply_numbers-perm getenv (apply_texts getenv base) p ∙ ap settled done) in
      subst
        (λ c.
          IsValid split_host_port c
          × ((base : Config) × (from_file read_file unmarshal getenv split_host_port path ≡ ok base)
              × Overrides getenv base c))
        (ok_inj r3)
        (
          validate-IsValid split_host_port c' valid,
          (base, found, apply_numbers-Overrides getenv base c' in_order),
        )
