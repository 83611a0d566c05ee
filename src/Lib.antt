-- ===== src/Lib.antt =====
-- A model of the web frontend of the repository (frontend/src): the session of a browser tab and
-- the routes that it guards, the form of a resource schema with its special inputs, the page that
-- starts terraform operations from it, the list of running operations, the pull request button, the
-- page that imports resources, the login and setup pages, and the dependency graph page; around
-- them the catalog of resource types, the list of deployed resources, the window with terraform's
-- output, the lists of policies, approvals and audit entries, and the settings. The session (Auth)
-- says what a user may see; the form (Form) hands a valid set of inputs to the resource page
-- (Resource), which starts an operation (Operations) for it or has a pull request made
-- (PullRequest); three inputs of the form are editors of their own (Rules, NodeGroups, Select); the
-- graph page (Graph) shows what depends on what.
--
-- Base                 shared names, lists, `===`, objects, Sets, decimal numbers; Base/Sorting
--                      `sort`, Base/Float numbers that are not integers, Base/Newest requests
--                      that are answered in order
-- Text                 JavaScript's string functions; Text/Regex regular expressions, Text/Number
--                      `parseInt`, Text/Split and Text/Items lists in one text, Text/Pattern
--                      `match` with groups
-- Graph/Blast          getBlastRadius of frontend/src/pages/GraphPage.js
-- Graph/Layout         the layout of the same page (useMemo): groups, positions, size
-- Graph/Edges          edgePaths, handleNodeClick and the highlighting of the same page
-- Graph/Nodes          the drawing of the nodes of the same page; Graph/Edges/Curves that of the
--                      edges, Graph/Colors its colors and legend
-- Operations           OperationProvider of frontend/src/contexts/OperationContext.js
-- Auth                 AuthProvider of frontend/src/contexts/AuthContext.js, and setToken and authFetch of
--                      frontend/src/config.js
-- Auth/Routes          ProtectedRoute, PublicRoute, RequireRole, AppLayout and App of frontend/src/App.js,
--                      links of frontend/src/components/Navbar.js (Auth/Routes/Links)
-- Form/Validate        validateField of frontend/src/components/DynamicForm.js
-- Form/Inputs          renderInput and renderField of the same file
-- Form                 DynamicForm of the same file: the handlers of that component
-- Rules                frontend/src/components/SecurityGroupRules.js
-- NodeGroups           frontend/src/components/NodeGroupEditor.js
-- Select               frontend/src/components/AwsResourceSelect.js; Select/Selection what is
--                      selected as a set, Select/Region the requests for the resources
-- Catalog              frontend/src/pages/HomePage.js
-- MyResources          frontend/src/pages/MyResourcesPage.js; MyResources/View its cards
-- PlanWindow           frontend/src/components/PlanModal.js, PlanWindow/Completion its banner
-- Audit                frontend/src/pages/AuditLogPage.js
-- Policies             frontend/src/pages/PoliciesPage.js
-- Approvals            frontend/src/pages/ApprovalsPage.js
-- Dashboard            frontend/src/pages/DashboardPage.js
-- Costs                frontend/src/pages/CostDashboardPage.js; Costs/Breakdown its bars and rows
-- Settings             frontend/src/pages/SettingsPage.js, a child for one section or more;
--                      Settings/Sections and Settings/Rows what sections show
-- Navbar               frontend/src/components/Navbar.js
-- Theme                frontend/src/contexts/ThemeContext.js, frontend/src/styles/theme.js
-- Resource             launchOp, handleSubmit and handleConfirmAction of
--                      frontend/src/pages/ResourcePage.js; Resource/Flow the page with its form,
--                      Resource/View what it loads and shows, Resource/Environment the page of an edited
--                      resource, Resource/Dialog the dialog before an apply or a destroy
--                      (frontend/src/components/ConfirmModal.js)
-- Tab                  the page inside OperationProvider, with what its sockets send
-- Runs                 the history of the same page and the recent activity of the dashboard
-- Import               frontend/src/pages/ImportPage.js
-- Setup                frontend/src/pages/SetupPage.js
-- Login                the login, change and reset forms and the particles of frontend/src/pages/LoginPage.js
-- PullRequest          generatePR of frontend/src/components/PRButton.js
--
-- State is explicit: a record for the state of a component, and one function from state to state
-- for each handler. Callbacks of sockets and requests are events whose contents the environment
-- chooses; the answers of the server and the clock are arguments. An event of an input that is not
-- on the screen does nothing. The children named Tests of the components run the code on concrete
-- inputs.
--
-- Fuel: getBlastRadius recurses on fuel, one more than there are edges; every call that recurses
-- adds a node that some edge starts from, so no call runs out. Writing a number in decimal takes
-- fuel, one more than the number, which is at least the number of its digits.
--
-- Not modelled: the backend in Go, the terraform modules, the schemas and charts, styles and
-- markup, the opacities of drawings, and the rows of tables that only show fields. What the
-- frontend takes from JavaScript's tables of Unicode (`toLowerCase`, `toUpperCase`), `parseFloat`,
-- `Math.random` and `Math.sqrt` are parameters, and so are the operations on numbers that are not
-- integers (Base/Float), with what IEEE 754 says of them as hypotheses where a theorem needs it.
-- Elsewhere numbers are exact; the source's are doubles.
mod Base
pub mod Text
pub mod Graph
pub mod Operations
pub mod Auth
pub mod Catalog
pub mod Audit
pub mod Policies
pub mod Approvals
pub mod Dashboard
pub mod Costs
pub mod Form
pub mod Rules
pub mod Select
pub mod Resource
pub mod PullRequest
pub mod NodeGroups
pub mod Import
pub mod MyResources
pub mod Setup
pub mod Runs
pub mod Settings
pub mod Tab
pub mod PlanWindow
pub mod Login
pub mod Navbar
pub mod Theme
