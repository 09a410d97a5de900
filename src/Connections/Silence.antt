-- ===== src/Connections/Silence.antt =====
-- internal/service/monobank/monobank.go and internal/webhook/monobank.go: deliveries after a disconnection.
use finance_engine.Prelude.{
  String, Bool, true, Option, none, some, List, [], ◌∷◌, ◌==◌, if◌then◌else◌, string_eq, nat_eq,
  ◌≡◌, refl, arith, Bool-cases, inl, inr, eq_iff, suc, ==-refl,
}
use finance_engine.Schema.{Uuid, Time, MonobankConnection}
use finance_engine.Store.{World, ok, err, refused, unavailable}
use finance_engine.Table.{first, delete, IsKeyed}
use finance_engine.Imports.{StatementItem, get_by_webhook_secret, deliver_to, process}
use finance_engine.Connections.{is_of, disconnect}

abbrev pub has_secret : String → MonobankConnection → Bool
has_secret secret c = c.webhook_secret == secret

still_none :
    (secret : String) (p : MonobankConnection → Bool) (xs : List MonobankConnection)
    → first (has_secret secret) xs ≡ none
    → first (has_secret secret) (delete p xs) ≡ none
unfolding first delete
still_none secret p [] h = refl
still_none secret p (x ∷ xs) h = ground (arith, still_none secret p xs)

-- A secret is one connection's, so that without this connection nobody has it.
gone :
    (secret : String) (p : MonobankConnection → Bool) (xs : List MonobankConnection)
    (c : MonobankConnection)
    → IsKeyed (λ (x : MonobankConnection). x.webhook_secret) xs
    → first (has_secret secret) xs ≡ some c
    → p c ≡ true
    → first (has_secret secret) (delete p xs) ≡ none
unfolding first delete
gone secret p [] c v found hit = refl
gone secret p (x ∷ xs) c v found hit = elim (Bool-cases (x.webhook_secret == secret)) [
  | inl mine ↦
      let e = (eq_iff x.webhook_secret secret).0 mine in
      let here : some x ≡ some c = rw mine at found in
      let dropped : p x ≡ true = cc in rw dropped (still_none secret p xs (rw e at v.0))
  | inr other ↦
      let rest = gone secret p xs c v.1 (rw other at found) hit in
      elim (Bool-cases (p x)) [ inl deleted ↦ rw deleted rest | inr stays ↦ rw (stays, other) rest ]
]

-- Once Disconnect has succeeded for the user whose connection has a secret, a delivery of Monobank to this
-- secret changes nothing, if secrets are unique; it is refused as unknown unless the database is down.
pub disconnect_silences :
    (same_name : String → String → Bool) (numeric : String → Option String) (user_id : Uuid)
    (secret account : String) (item : StatementItem) (id : Uuid) (now : Time) (w : World)
    (c : MonobankConnection)
    → IsKeyed (λ (x : MonobankConnection). x.webhook_secret) w.db.monobank_connections
    → first (has_secret secret) w.db.monobank_connections ≡ some c
    → c.user_id ≡ user_id
    → (disconnect user_id w).0 ≡ ok tt
    → let w' = (disconnect user_id w).1 in
      let out = process same_name numeric secret account item id now w' in
      (out.1.db ≡ w'.db)
      × (out.0 ≡ err (if w'.down w'.queries then unavailable else refused "unknown webhook secret"))
unfolding disconnect process get_by_webhook_secret deliver_to
disconnect_silences same_name numeric user_id secret account item id now w c keyed found owner
      done =
    elim (Bool-cases (w.down w.queries)) [
      | inl failed ↦ absurd (cc (rw (failed, disconnect) at done))
      | inr up ↦
          let none_left =
            gone secret (is_of user_id) w.db.monobank_connections c keyed found
              (rw owner (==-refl user_id)) in
          elim (Bool-cases (w.down (suc w.queries))) [
            | inl failed ↦ rw (up, failed, get_by_webhook_secret, deliver_to) (refl, refl)
            | inr up' ↦ rw (up, up', none_left, get_by_webhook_secret, deliver_to) (refl, refl)
          ]
    ]
