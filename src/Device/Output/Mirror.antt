-- ===== src/Device/Output/Mirror.antt =====
-- The virtual device mirrors the metadata, and so the physical device that these were read from.
use joycast.Prelude.{
  ℕ, String, ◌≡◌, refl, ap, ◌∙◌, false, ◌||◌, List, [], ◌∷◌, ◌++◌, map, arith, eqb,
}
use mathlib.Core.List.{append_assoc, append-nil}
use joycast.Prelude.Outcome.{ok, with_context, >>=-eq-ok}
use joycast.Protocol.{AbsAxisWire, DeviceMetadata}
use joycast.Device.{has}
use joycast.Device.Output.{
  AbsSetup, DeviceSetup, Uinput, VirtualOutput, set_insert, insert_all, abs_setup, add_abs_axes,
  add_keys, add_rel_axes, open_error, new_with_name,
}

has-append : (a b : List ℕ) (k : ℕ) → has (a ++ b) k ≡ (has a k || has b k)
unfolding has
has-append [] b k = ground arith
has-append (x ∷ a) b k = ground (arith, has-append a b k)

has-set_insert : (set : List ℕ) (x k : ℕ) → has (set_insert set x) k ≡ (has set k || eqb x k)
unfolding set_insert has
has-set_insert set x k = ground (arith, has-append set (x ∷ []) k, ap (has set))

insert_all-nil : (set : List ℕ) → insert_all set [] ≡ set
unfolding insert_all
insert_all-nil set = refl

has-insert_all :
    (set keys : List ℕ) (k : ℕ) → has (insert_all set keys) k ≡ (has set k || has keys k)
unfolding insert_all has
has-insert_all set [] k = ground arith
has-insert_all set (x ∷ keys) k =
    has-insert_all (set_insert set x) keys k ∙ ground (arith, has-set_insert set x k)

add_abs_axes_lem :
    (io : Uinput) (axes : List AbsAxisWire) (s r : DeviceSetup)
    → add_abs_axes io axes s ≡ ok r
    → r ≡ record s { abs_axes = s.abs_axes ++ map abs_setup axes }
unfolding add_abs_axes
add_abs_axes_lem io [] s r h = ground (arith, append-nil s.abs_axes)
add_abs_axes_lem io (a ∷ axes) s r h =
    let (u, e, rest) = >>=-eq-ok (with_context (io.with_absolute_axis (abs_setup a)) _) _ h in
    add_abs_axes_lem io axes _ r rest
    ∙ ap (λ (l : List AbsSetup). record s { abs_axes = l })
        (append_assoc s.abs_axes (abs_setup a ∷ []) (map abs_setup axes))

add_keys_lem :
    (io : Uinput) (meta : DeviceMetadata) (s r : DeviceSetup)
    → add_keys io meta s ≡ ok r
    → s.keys ≡ []
    → (r ≡ record s { keys = insert_all [] meta.keys })
unfolding add_keys
add_keys_lem io meta s r h e = ground (arith, insert_all-nil [])

add_rel_axes_lem :
    (io : Uinput) (meta : DeviceMetadata) (s r : DeviceSetup)
    → add_rel_axes io meta s ≡ ok r
    → s.rel_axes ≡ []
    → (r ≡ record s { rel_axes = insert_all [] meta.rel_axes })
unfolding add_rel_axes
add_rel_axes_lem io meta s r h e = ground (arith, insert_all-nil [])

-- The device that `new_with_name` builds has the name asked for, the identity, axes and ranges of
-- the metadata, and exactly its keys and relative axes; no event has reached it yet.
pub record Mirrors (meta : DeviceMetadata) (dev_name : String) (out : VirtualOutput) : Type 0 where
  pub named : out.name ≡ dev_name
  pub setup_name : out.device.setup.name ≡ dev_name
  pub bustype : out.device.setup.bustype ≡ meta.bustype
  pub vendor : out.device.setup.vendor ≡ meta.vendor
  pub product : out.device.setup.product ≡ meta.product
  pub version : out.device.setup.version ≡ meta.version
  pub keys : (k : ℕ) → has out.device.setup.keys k ≡ has meta.keys k
  pub rel_axes : (k : ℕ) → has out.device.setup.rel_axes k ≡ has meta.rel_axes k
  pub abs_axes : out.device.setup.abs_axes ≡ map abs_setup meta.abs_axes
  pub silent : out.device.emitted ≡ []

has-nil : (k : ℕ) → has [] k ≡ false
unfolding has
has-nil k = refl

pub new_with_name-Mirrors :
    (io : Uinput) (meta : DeviceMetadata) (dev_name : String) (out : VirtualOutput)
    → new_with_name io meta dev_name ≡ ok out
    → Mirrors meta dev_name out
unfolding new_with_name
new_with_name-Mirrors io meta dev_name out h =
    let (_, _, h1) = >>=-eq-ok (open_error io.open_builder) _ h in
    let (a, ka, h2) = >>=-eq-ok (add_keys io meta _) _ h1 in
    let (b, kb, h3) = >>=-eq-ok (add_rel_axes io meta a) _ h2 in
    let (c, kc, h4) = >>=-eq-ok (add_abs_axes io meta.abs_axes b) _ h3 in
    let (_, _, h5) = >>=-eq-ok (with_context (io.build c) _) _ h4 in
    let ea = add_keys_lem io meta _ a ka refl in
    let eb = add_rel_axes_lem io meta a b kb (ground arith) in
    let ec = add_abs_axes_lem io meta.abs_axes b c kc in
    record {
      named = ground arith;
      setup_name = ground arith;
      bustype = ground arith;
      vendor = ground arith;
      product = ground arith;
      version = ground arith;
      keys = λ k. ground (arith, has-insert_all [] meta.keys k, has-nil k);
      rel_axes = λ k. ground (arith, has-insert_all [] meta.rel_axes k, has-nil k);
      abs_axes = ground arith;
      silent = ground arith;
    }
