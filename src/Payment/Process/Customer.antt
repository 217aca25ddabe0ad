-- ===== src/Payment/Process/Customer.antt =====
-- `getOrCreateCustomer` of internal/usecase/payment/process_payment.go, with the collections it uses:
-- internal/adapter/mongodb/asaas_customer_link.go and `FindByID` of usuario.go.
use backend_go_role_organiza.Prelude.{
  String, ◌==◌, Bool, List, [], ◌∷◌, ◌++◌, find, any, update_first, join, is_set, if◌then◌else◌,
}
use backend_go_role_organiza.ApiErr.{plain, wrapped, internal, not_found, is_not_found}
use backend_go_role_organiza.Payment.Domain.{AsaasCustomerLink, Usuario}
use backend_go_role_organiza.World.{
  Env, Action, Result, ok, err, pure, raise, attempt, context, gets, or_raise, modify, ignore,
  ◌>>=◌, ◌>>◌, time_now, driver, request,
}

abbrev is_link_of : String → AsaasCustomerLink → Bool
is_link_of user l = l.user_id == user

-- `ReplaceOne` by the user, with upsert.
unfoldable pub upsert_link : AsaasCustomerLink → List AsaasCustomerLink → List AsaasCustomerLink
upsert_link l ls =
    if any (is_link_of l.user_id) ls
    then update_first (is_link_of l.user_id) (λ _. l) ls
    else ls ++ l ∷ []

module _ (env : Env) where
  unfoldable pub find_link : String → Action AsaasCustomerLink
  find_link user = do
    driver env (λ reason. internal (join ("find asaas customer link: " ∷ reason ∷ [])))
    l ← gets (λ w. find (is_link_of user) w.customer_links)
    or_raise l (not_found "asaas_customer_link" user)

  unfoldable pub save_link : AsaasCustomerLink → Action (Unit {0})
  save_link l = do
    driver env (λ reason. internal (join ("save asaas customer link: " ∷ reason ∷ [])))
    modify (λ w. record w { customer_links = upsert_link l w.customer_links })

  unfoldable pub find_usuario : String → Action Usuario
  find_usuario id = do
    driver env plain
    u ← gets (λ w. find (λ u. u.id == id) w.usuarios)
    or_raise u (not_found "usuario" id)

  unfoldable pub create_customer : String → String → Action String
  unfolding find_usuario save_link
  create_customer user cpf = do
    usuario ← context "find user" (find_usuario user)
    customer ←
        context "create asaas customer"
          (request env (λ n. env.customer n usuario (if is_set cpf then cpf else usuario.cpf)))
    now ← time_now env
    ignore (
        save_link (record {
          user_id = user;
          asaas_customer_id = customer;
          created_at = now;
          updated_at = now;
        }))
    pure customer

  unfoldable pub after_link : String → String → Result AsaasCustomerLink → Action String
  unfolding create_customer
  after_link user cpf (ok l) = pure l.asaas_customer_id
  after_link user cpf (err e) =
      if is_not_found e then create_customer user cpf else raise (wrapped "find customer link" e)

  unfoldable pub get_or_create_customer : String → String → Action String
  unfolding find_link after_link
  get_or_create_customer user cpf = do answer ← attempt (find_link user); after_link user cpf answer
