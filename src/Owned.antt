-- ===== src/Owned.antt =====
-- What one user sees of the tables of internal/db: the rows that carry the user's id.
pub mod Rows
pub mod Queries
pub mod Writes
pub mod Services
pub mod Bank
pub mod Papers
pub mod Advice
pub mod Unfiling
use finance_engine.Prelude.{Bool, ◌==◌, nat_eq, ◌≡◌, List}
use finance_engine.Schema.{
  Uuid, User, PaymentEvent, Session, Category, Transaction, MonobankConnection, Db,
}
use finance_engine.Store.{World, M}
use finance_engine.Table.{select}

-- The tables with the rows of one user only.
unfoldable pub view : Uuid → Db → Db
view j db = record {
  users = select (λ (u : User). u.id == j) db.users;
  payment_events = select (λ (e : PaymentEvent). e.user_id == j) db.payment_events;
  sessions = select (λ (s : Session). s.user_id == j) db.sessions;
  categories = select (λ (c : Category). c.user_id == j) db.categories;
  transactions = select (λ (t : Transaction). t.user_id == j) db.transactions;
  monobank_connections =
      select (λ (c : MonobankConnection). c.user_id == j) db.monobank_connections;
}

-- A call that leaves the rows of a user as they are, whatever it answers.
pub record Spares (j : Uuid) {A : Type 0} (m : M A) : Type 0 where
  pub same : (w : World) → view j (m w).1.db ≡ view j w.db
