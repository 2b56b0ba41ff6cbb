-- ===== src/Zeroparser/Registry/Collect.antt =====
-- The loop with its stack collects the types of a descriptor as the recursion over it would.
use Prim.Native.String.{String}
use zerobus_sdk.Common.{ℕ, zero, suc, ◌+◌, ◌≤◌, ◌≡◌, refl, ap, ◌∙◌, arith, List, [], ◌∷◌, some}
use zerobus_sdk.Common.Assoc.{insert as map_insert}
use zerobus_sdk.Zeroparser.Registry.{
  DescriptorProto, DescriptorProtos, descriptor_proto, nil, cons, from_descriptor, Messages,
  string_eq, full_name, unwrap_or, push_nested, collect_loop, collect_messages,
  registry_from_descriptor, size, sizes,
}

-- Each type before the types nested in it, and those in their order.
unfoldable mutual
  pub visit : DescriptorProto → String → Messages → Messages
  visit (descriptor_proto name field nested_type oneof_decl options) prefix acc =
      visit_all nested_type (full_name prefix (unwrap_or "" name)) (
        map_insert string_eq (full_name prefix (unwrap_or "" name))
          (from_descriptor (descriptor_proto name field nested_type oneof_decl options)) acc)

  pub visit_all : DescriptorProtos → String → Messages → Messages
  visit_all nil prefix acc = acc
  visit_all (cons d ds) prefix acc = visit_all ds prefix (visit d prefix acc)

visit_stack : List (DescriptorProto × String) → Messages → Messages
visit_stack [] acc = acc
visit_stack ((d, prefix) ∷ stack) acc = visit_stack stack (visit d prefix acc)

stack_size : List (DescriptorProto × String) → ℕ
stack_size [] = 0
stack_size ((d, prefix) ∷ stack) = size d + stack_size stack

visit_stack-push_nested :
    (ds : DescriptorProtos) (prefix : String) (stack : List (DescriptorProto × String))
    (acc : Messages)
    → visit_stack (push_nested ds prefix stack) acc ≡ visit_stack stack (visit_all ds prefix acc)
unfolding visit_stack push_nested visit_all
visit_stack-push_nested nil prefix stack acc = refl
visit_stack-push_nested (cons d ds) prefix stack acc =
    visit_stack-push_nested ds prefix stack (visit d prefix acc)

stack_size-push_nested :
    (ds : DescriptorProtos) (prefix : String) (stack : List (DescriptorProto × String))
    → stack_size (push_nested ds prefix stack) ≡ sizes ds + stack_size stack
unfolding stack_size push_nested sizes
stack_size-push_nested nil prefix stack = omega arith
stack_size-push_nested (cons d ds) prefix stack =
    omega (arith, stack_size-push_nested ds prefix stack)

collect_loop_lem :
    (fuel : ℕ) (stack : List (DescriptorProto × String)) (acc : Messages)
    → stack_size stack ≤ fuel
    → collect_loop fuel stack acc ≡ some (visit_stack stack acc)
unfolding collect_loop visit_stack
collect_loop_lem zero [] acc h = refl
collect_loop_lem (suc fuel) [] acc h = refl
collect_loop_lem zero ((descriptor_proto name field nested_type oneof_decl options, prefix) ∷ stack)
      acc h =
    absurd (unfold stack_size size in omega arith)
collect_loop_lem (suc fuel)
      ((descriptor_proto name field nested_type oneof_decl options, prefix) ∷ stack) acc h =
    let full = full_name prefix (unwrap_or "" name) in
    let desc = descriptor_proto name field nested_type oneof_decl options in
    let small : stack_size (push_nested nested_type full stack) ≤ fuel =
      unfold stack_size size in omega (arith, stack_size-push_nested nested_type full stack) in
    collect_loop_lem fuel (push_nested nested_type full stack)
      (map_insert string_eq full (from_descriptor desc) acc) small
    ∙ ap some (
        unfold visit in
        visit_stack-push_nested nested_type full stack
          (map_insert string_eq full (from_descriptor desc) acc))

-- Every descriptor has a registry: the loop ends, and leaves the types in the order of the
-- recursion, so that of two types with one full name the later one stands.
pub registry_from_descriptor_lem :
    (root : DescriptorProto)
    → registry_from_descriptor root
      ≡ some (record { messages = visit root "" []; root_descriptor = from_descriptor root })
unfolding registry_from_descriptor collect_messages visit_stack
registry_from_descriptor_lem root = rw (
  collect_loop_lem (size root) ((root, "") ∷ []) [] (unfold stack_size in omega arith),
  registry_from_descriptor,
)
