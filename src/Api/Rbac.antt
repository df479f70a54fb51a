-- ===== src/Api/Rbac.antt =====
-- The objects of access control that the check reader reads and writes: rbacv1.PolicyRule and
-- metav1.APIResourceList.
use incident_controller.Prelude.{Text, List}

pub record PolicyRule : Type 0 where
  pub api_groups : List Text
  pub resources : List Text
  pub verbs : List Text

pub record ApiResource : Type 0 where
  pub name : Text
  pub verbs : List Text

pub record ApiResourceList : Type 0 where
  pub group_version : Text
  pub api_resources : List ApiResource
