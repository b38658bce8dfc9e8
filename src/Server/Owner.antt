-- ===== src/Server/Owner.antt =====
-- Whose session a key of the table in src/server.rs stands for.
use Prim.Native.Char.{Char}
use Prim.Native.String.append as append
use Prim.Native.String.{String, [], ◌∷◌, ◌++◌}
use joycast.Prelude.{◌≡◌, ◌≢◌, refl, ap, sym, ◌∙◌}
use joycast.Protocol.{HandshakePayload}
use joycast.Server.{session_key, device_id_of}

abbrev colon : Char
colon = ":"

-- no colon in the text
abbrev pub HasNoColon : String → Type 0
HasNoColon [] = Unit {0}
HasNoColon (c ∷ s) = (c ≢ colon) × HasNoColon s

first : String → Char
first [] = colon
first (c ∷ s) = c

rest : String → String
rest [] = ""
rest (c ∷ s) = s

first-append : (c : Char) (s t : String) → first ((c ∷ s) ++ t) ≡ c
unfolding first
first-append c s t = rw append.cons refl

rest-append : (c : Char) (s t : String) → rest ((c ∷ s) ++ t) ≡ s ++ t
unfolding rest
rest-append c s t = rw append.cons refl

joined : String → String → String
joined a x = a ++ ":" ++ x

joined_nil : (x : String) → (first (joined "" x) ≡ colon) × (rest (joined "" x) ≡ x)
unfolding joined
joined_nil x =
    let e = append.nil (":" ++ x) in
    (ap first e ∙ first-append colon "" x, ap rest e ∙ (rest-append colon "" x ∙ append.nil x))

joined_cons :
    (c : Char) (a x : String)
    → (first (joined (c ∷ a) x) ≡ c) × (rest (joined (c ∷ a) x) ≡ joined a x)
unfolding joined
joined_cons c a x = (first-append c a (":" ++ x), rest-append c a (":" ++ x))

-- Texts that have no colon are cut off again at the first one.
split :
    (a b x y : String) → HasNoColon a → HasNoColon b → joined a x ≡ joined b y → (a ≡ b) × (x ≡ y)
split [] [] x y p q e = (refl, sym (joined_nil x).1 ∙ (ap rest e ∙ (joined_nil y).1))
split [] (d ∷ b) x y p q e =
    absurd (q.0 (sym (joined_cons d b y).0 ∙ (sym (ap first e) ∙ (joined_nil x).0)))
split (c ∷ a) [] x y p q e =
    absurd (p.0 (sym (joined_cons c a x).0 ∙ (ap first e ∙ (joined_nil y).0)))
split (c ∷ a) (d ∷ b) x y p q e =
    let head = sym (joined_cons c a x).0 ∙ (ap first e ∙ (joined_cons d b y).0) in
    let tail = sym (joined_cons c a x).1 ∙ (ap rest e ∙ (joined_cons d b y).1) in
    let (same, others) = split a b x y p.1 q.1 tail in
    (ap (λ (s : String). c ∷ s) same ∙ ap (λ (z : Char). z ∷ b) head, others)

-- Two handshakes have the same session only if they are of the same client, for the same device,
-- where the ids of both clients have no colon.
pub session_key_owner :
    (p q : HandshakePayload)
    → HasNoColon p.client_id
    → HasNoColon q.client_id
    → session_key p ≡ session_key q
    → (p.client_id ≡ q.client_id) × (device_id_of p ≡ device_id_of q)
unfolding session_key joined
session_key_owner p q a b e = split p.client_id q.client_id _ _ a b e
