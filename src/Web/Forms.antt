-- ===== src/Web/Forms.antt =====
-- What the handlers read of a form.
use sub_manager.Base.{
  Bool, Text, codes, text_eq, is_empty, trim_space, trim_prefix_char, if◌then◌else◌,
}

-- The values of the form as they are sent.
pub record RawForm : Type 0 where
  pub name : Text
  pub path : Text
  pub content : Text
  pub kind : Text
  pub enabled : Text

pub record SubscriptionForm : Type 0 where
  pub name : Text
  pub path : Text
  pub content : Text
  pub kind : Text
  pub enabled : Bool

-- `subscriptionFromForm`
unfoldable pub subscription_from_form : RawForm → SubscriptionForm
subscription_from_form r = record {
  name = trim_space r.name;
  path = trim_space r.path;
  content = r.content;
  kind = trim_space r.kind;
  enabled = text_eq r.enabled (codes "1");
}

-- The name that stands in for an empty one.
unfoldable pub name_or_path : Text → Text → Text
name_or_path name path = if is_empty name then trim_prefix_char b'/' path else name
